-- ===== src/Security/JsonLaws.antt =====
-- Fields of JSON objects: what reading gives behind writing and deleting.
use cool_tunnel_server.Base.Texts.{Text, text_eq_refl, text_eq, text_eq→eq}
use cool_tunnel_server.Security.Json.{
  find_field, has_field, set_field, delete_field, Json, Fields, end, field,
}
use cool_tunnel_server.Base.{◌≡◌, refl, inl, inr, false, some, arith, Bool-cases}

pub find-set :
    (key : Text) (value : Json) (fields : Fields)
    → find_field key (set_field key value fields) ≡ some value
unfolding find_field set_field
find-set key value end = ground (arith, text_eq_refl key)
find-set key value (field name old rest) = ground (arith, find-set key value rest)

pub find-set_other :
    (key other : Text) (value : Json) (fields : Fields)
    → text_eq key other ≡ false
    → find_field other (set_field key value fields) ≡ find_field other fields
unfolding find_field set_field
find-set_other key other value end h = ground (arith, h)
find-set_other key other value (field name old rest) h = elim (Bool-cases (text_eq name key)) [
  | inr e ↦ ground (arith, find-set_other key other value rest h)
  | inl e ↦ rw (text_eq→eq name key e) (ground (arith, h, text_eq_refl key))
]

pub find-delete_other :
    (key other : Text) (fields : Fields)
    → text_eq key other ≡ false
    → find_field other (delete_field key fields) ≡ find_field other fields
unfolding find_field delete_field
find-delete_other key other end h = refl
find-delete_other key other (field name old rest) h = elim (Bool-cases (text_eq name key)) [
  | inr e ↦ ground (arith, find-delete_other key other rest h)
  | inl e ↦
      let differs : text_eq name other ≡ false = rw (text_eq→eq name key e) h in
      ground (arith, find-delete_other key other rest h)
]

pub has-delete : (key : Text) (fields : Fields) → has_field key (delete_field key fields) ≡ false
unfolding has_field delete_field
has-delete key end = refl
has-delete key (field name old rest) = ground (arith, has-delete key rest)

pub has-set_other :
    (key other : Text) (value : Json) (fields : Fields)
    → text_eq key other ≡ false
    → has_field other (set_field key value fields) ≡ has_field other fields
unfolding has_field set_field
has-set_other key other value end h = ground (arith, h)
has-set_other key other value (field name old rest) h =
    ground (arith, has-set_other key other value rest h)

pub delete-absent :
    (key : Text) (fields : Fields) → has_field key fields ≡ false → delete_field key fields ≡ fields
unfolding has_field delete_field
delete-absent key end h = refl
delete-absent key (field name old rest) h = ground (arith, delete-absent key rest)
