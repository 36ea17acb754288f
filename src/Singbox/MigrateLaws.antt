-- ===== src/Singbox/MigrateLaws.antt =====
-- singbox-core/src/subcommands/supervise.ts: what `migrateLegacyDomainStrategyConfig` leaves.
use cool_tunnel_server.Security.JsonLaws.{
  find-set, find-set_other, has-set_other, has-delete, delete-absent, find-delete_other,
}
use cool_tunnel_server.Singbox.Migrate.{
  migrate_resolver, ipv4_only, new_resolver, migrate_direct, migrate_outbound, migrate_outbounds,
  migrate_config, is_direct, with_local_dns,
}
use cool_tunnel_server.Base.Texts.{Text, text_eq_refl, text_eq, codes}
use cool_tunnel_server.Security.Json.{
  find_field, has_field, set_field, delete_field, is_text, Json, null, bool, num, str, arr, obj,
  Items, nil, cons, Fields,
}
use cool_tunnel_server.Base.{
  ◌≡◌, refl, sym, ap, ◌∙◌, subst, ◌⊎◌, inl, inr, Bool, true, false, Option, some, none, arith,
  Bool-cases,
}

abbrev pub resolver_key : Text
resolver_key = codes "domain_resolver"

abbrev pub strategy_key : Text
strategy_key = codes "domain_strategy"

-- A resolver that is settled stays as it is.
IsSettled : Fields → Type 0
IsSettled outbound = migrate_resolver outbound ≡ (outbound, false)

replaced-IsSettled :
    (resolver outbound : Fields)
    → is_text (find_field (codes "strategy") resolver) ipv4_only ≡ true
    → find_field resolver_key outbound ≡ some (obj resolver)
    → IsSettled outbound
unfolding IsSettled migrate_resolver
replaced-IsSettled resolver outbound strategy found = ground (arith, strategy, found)

set_resolver-IsSettled :
    (resolver outbound : Fields)
    → is_text (find_field (codes "strategy") resolver) ipv4_only ≡ true
    → IsSettled (set_field resolver_key (obj resolver) outbound)
set_resolver-IsSettled resolver outbound strategy =
    replaced-IsSettled resolver (set_field resolver_key (obj resolver) outbound) strategy
      (find-set resolver_key (obj resolver) outbound)

pub strategy_set :
    (resolver : Fields)
    → is_text
        (find_field (codes "strategy") (set_field (codes "strategy") (str ipv4_only) resolver))
        ipv4_only
      ≡ true
strategy_set resolver =
    ap (λ v. is_text v ipv4_only) (find-set (codes "strategy") (str ipv4_only) resolver)
    ∙ text_eq_refl ipv4_only

step-IsSettled :
    (outbound m : Fields) (changed : Bool)
    → migrate_resolver outbound ≡ (m, changed)
    → IsSettled m
    → IsSettled (migrate_resolver outbound).0
step-IsSettled outbound m changed e h = subst IsSettled (sym (ap (λ r. r.0) e)) h

resolver-replaced :
    (outbound : Fields)
    → migrate_resolver outbound ≡ (set_field resolver_key (obj new_resolver) outbound, true)
    → IsSettled (migrate_resolver outbound).0
unfolding find_field text_eq
resolver-replaced outbound e =
    step-IsSettled outbound _ true e (set_resolver-IsSettled new_resolver outbound refl)

-- Behind the step, whatever stood under the key is settled.
resolver-IsSettled :
    (outbound : Fields) (found : Option Json)
    → find_field resolver_key outbound ≡ found
    → IsSettled (migrate_resolver outbound).0
unfolding migrate_resolver
resolver-IsSettled outbound none e = resolver-replaced outbound (ground (arith, e))
resolver-IsSettled outbound (some null) e = resolver-replaced outbound (ground (arith, e))
resolver-IsSettled outbound (some (bool b)) e = resolver-replaced outbound (ground (arith, e))
resolver-IsSettled outbound (some (num n)) e = resolver-replaced outbound (ground (arith, e))
resolver-IsSettled outbound (some (str s)) e = resolver-replaced outbound (ground (arith, e))
resolver-IsSettled outbound (some (arr items)) e = resolver-replaced outbound (ground (arith, e))
resolver-IsSettled outbound (some (obj resolver)) e =
    elim (Bool-cases (is_text (find_field (codes "strategy") resolver) ipv4_only)) [
      | inl k ↦
          step-IsSettled outbound outbound false (ground (arith, e, k))
            (replaced-IsSettled resolver outbound k e)
      | inr k ↦ step-IsSettled outbound _ true (ground (arith, e, k)) (
          set_resolver-IsSettled (set_field (codes "strategy") (str ipv4_only) resolver) outbound
            (strategy_set resolver))
    ]

-- The step keeps the outbound, or sets the one key.
pub resolver-cases :
    (outbound : Fields) (found : Option Json)
    → find_field resolver_key outbound ≡ found
    → (migrate_resolver outbound ≡ (outbound, false))
      ⊎ ((v : Json) × (migrate_resolver outbound ≡ (set_field resolver_key v outbound, true)))
unfolding migrate_resolver
resolver-cases outbound none e = inr (obj new_resolver, ground (arith, e))
resolver-cases outbound (some null) e = inr (obj new_resolver, ground (arith, e))
resolver-cases outbound (some (bool b)) e = inr (obj new_resolver, ground (arith, e))
resolver-cases outbound (some (num n)) e = inr (obj new_resolver, ground (arith, e))
resolver-cases outbound (some (str s)) e = inr (obj new_resolver, ground (arith, e))
resolver-cases outbound (some (arr items)) e = inr (obj new_resolver, ground (arith, e))
resolver-cases outbound (some (obj resolver)) e =
    elim (Bool-cases (is_text (find_field (codes "strategy") resolver) ipv4_only)) [
      | inl k ↦ inl (ground (arith, e, k))
      | inr k ↦
          inr (obj (set_field (codes "strategy") (str ipv4_only) resolver), ground (arith, e, k))
    ]

-- So it touches no other key.
resolver-find :
    (outbound : Fields) (key : Text)
    → text_eq resolver_key key ≡ false
    → find_field key (migrate_resolver outbound).0 ≡ find_field key outbound
resolver-find outbound key h =
    elim (resolver-cases outbound (find_field resolver_key outbound) refl) [
      | inl e ↦ ap (λ r. find_field key r.0) e
      | inr (v, e) ↦ ap (λ r. find_field key r.0) e ∙ find-set_other resolver_key key v outbound h
    ]

resolver-has :
    (outbound : Fields) (key : Text)
    → text_eq resolver_key key ≡ false
    → has_field key (migrate_resolver outbound).0 ≡ has_field key outbound
resolver-has outbound key h =
    elim (resolver-cases outbound (find_field resolver_key outbound) refl) [
      | inl e ↦ ap (λ r. has_field key r.0) e
      | inr (v, e) ↦ ap (λ r. has_field key r.0) e ∙ has-set_other resolver_key key v outbound h
    ]

-- The loop's body does nothing to an outbound that it has been through.
direct-twice :
    (outbound : Fields)
    → (migrate_direct (migrate_direct outbound).0 ≡ ((migrate_direct outbound).0, false))
      × (is_direct (migrate_direct outbound).0 ≡ is_direct outbound)
unfolding migrate_direct IsSettled text_eq
direct-twice outbound =
    let bare = delete_field strategy_key outbound in
    let m = (migrate_resolver bare).0 in
    let absent : has_field strategy_key m ≡ false =
      resolver-has bare strategy_key refl ∙ has-delete strategy_key outbound in
    let same = delete-absent strategy_key m absent in
    let settled = resolver-IsSettled bare (find_field resolver_key bare) refl in
    let again : migrate_resolver (delete_field strategy_key m) ≡ (m, false) = rw same settled in
    (
      ground (arith, again, absent),
      ap (λ v. is_text v (codes "direct"))
          (resolver-find bare (codes "type") refl
            ∙ find-delete_other strategy_key (codes "type") outbound refl),
    )

outbound-twice :
    (value : Json)
    → migrate_outbound (migrate_outbound value).0 ≡ ((migrate_outbound value).0, false)
unfolding migrate_outbound
outbound-twice null = refl
outbound-twice (bool b) = refl
outbound-twice (num n) = refl
outbound-twice (str s) = refl
outbound-twice (arr items) = refl
outbound-twice (obj outbound) = elim (Bool-cases (is_direct outbound)) [
  | inr e ↦ ground (arith, e)
  | inl e ↦ let (twice, direct) = direct-twice outbound in ground (arith, e, twice, direct)
]

outbounds-twice :
    (items : Items)
    → migrate_outbounds (migrate_outbounds items).0 ≡ ((migrate_outbounds items).0, false)
unfolding migrate_outbounds
outbounds-twice nil = refl
outbounds-twice (cons value rest) = ground (arith, outbound-twice value, outbounds-twice rest)

pub outbounds_kept :
    (config : Fields) (outbounds : Items)
    → find_field
        (codes "outbounds")
        (with_local_dns (set_field (codes "outbounds") (arr outbounds) config))
      ≡ some (arr outbounds)
unfolding with_local_dns text_eq
outbounds_kept config outbounds =
    find-set_other (codes "dns") (codes "outbounds") _
      (set_field (codes "outbounds") (arr outbounds) config) refl
    ∙ find-set (codes "outbounds") (arr outbounds) config

-- A configuration whose outbounds have been through the loop.
pub config_done :
    (config : Fields) (outbounds : Items)
    → find_field (codes "outbounds") config ≡ some (arr (migrate_outbounds outbounds).0)
    → migrate_config (obj config) ≡ (obj config, false)
unfolding migrate_config
config_done config outbounds e = ground (arith, e, outbounds-twice outbounds)
