-- ===== src/Security/Json.antt =====
-- JSON values.
use cool_tunnel_server.Base.{Bool, false, ◌||◌, Option, some, none, if◌then◌else◌}
use cool_tunnel_server.Base.Texts.{Text, text_eq}

-- A number is kept by its literal; the fields of an object stand in enumeration order.
mutual
  pub data Json : Type 0 where
    null : Json
    bool : Bool → Json
    num : Text → Json
    str : Text → Json
    arr : Items → Json
    obj : Fields → Json

  pub data Items : Type 0 where
    nil : Items
    cons : Json → Items → Items

  pub data Fields : Type 0 where
    end : Fields
    field : Text → Json → Fields → Fields

-- `body.key`; `none` is undefined.
unfoldable pub find_field : Text → Fields → Option Json
find_field key end = none
find_field key (field name value rest) =
    if text_eq name key then some value else find_field key rest

-- `key in body`
unfoldable pub has_field : Text → Fields → Bool
has_field key end = false
has_field key (field name value rest) = text_eq name key || has_field key rest

-- `delete body.key`
unfoldable pub delete_field : Text → Fields → Fields
delete_field key end = end
delete_field key (field name value rest) =
    if text_eq name key then delete_field key rest else field name value (delete_field key rest)

-- `body.key = value`: in its place, or behind the other fields.
unfoldable pub set_field : Text → Json → Fields → Fields
set_field key value end = field key value end
set_field key value (field name old rest) =
    if text_eq name key then field name value rest else field name old (set_field key value rest)

-- `value === "text"`
abbrev pub is_text : Option Json → Text → Bool
is_text (some (str s)) t = text_eq s t
is_text _ t = false
