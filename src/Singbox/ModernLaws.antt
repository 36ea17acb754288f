-- ===== src/Singbox/ModernLaws.antt =====
-- singbox-core/src/subcommands/supervise.ts: the direct outbounds behind
-- `migrateLegacyDomainStrategyConfig`.
use cool_tunnel_server.Security.JsonLaws.{find-set, has-set_other, has-delete, delete-absent}
use cool_tunnel_server.Singbox.Migrate.{
  migrate_resolver, ipv4_only, new_resolver, migrate_direct, migrate_outbound, migrate_outbounds,
  migrate_config, is_direct, with_local_dns,
}
use cool_tunnel_server.Base.Texts.{text_eq, codes}
use cool_tunnel_server.Security.Json.{
  find_field, has_field, set_field, delete_field, is_text, Json, null, bool, num, str, arr, obj,
  Items, nil, cons, Fields,
}
use cool_tunnel_server.Base.{
  ◌≡◌, refl, sym, ap, ◌∙◌, subst, ◌⊎◌, inl, inr, Bool, true, false, Option, some, none, arith,
  Bool-cases,
}
use cool_tunnel_server.Singbox.MigrateLaws.{
  resolver_key, strategy_key, strategy_set, resolver-cases, outbounds_kept, config_done,
}

-- A direct outbound as the migration wants it: no `domain_strategy`, and a resolver that is a record
-- with the strategy `ipv4_only`.
abbrev pub IsModern : Fields → Type 0
IsModern outbound =
    (has_field strategy_key outbound ≡ false)
    × ((resolver : Fields) × (find_field resolver_key outbound ≡ some (obj resolver))
        × (is_text (find_field (codes "strategy") resolver) ipv4_only ≡ true))

-- Each outbound of the list that is a direct one is as the migration wants it.
abbrev pub AllModern : Items → Type 0
AllModern nil = Unit {0}
AllModern (cons (obj outbound) rest) =
    ((is_direct outbound ≡ false) ⊎ IsModern outbound) × AllModern rest
AllModern (cons _ rest) = AllModern rest

set_resolver-IsModern :
    (resolver outbound : Fields)
    → has_field strategy_key outbound ≡ false
    → is_text (find_field (codes "strategy") resolver) ipv4_only ≡ true
    → IsModern (set_field resolver_key (obj resolver) outbound)
unfolding text_eq
set_resolver-IsModern resolver outbound absent strategy = (
  has-set_other resolver_key strategy_key (obj resolver) outbound refl ∙ absent,
  (resolver, find-set resolver_key (obj resolver) outbound, strategy),
)

stepped-IsModern :
    (outbound m : Fields) (changed : Bool)
    → migrate_resolver outbound ≡ (m, changed)
    → IsModern m
    → IsModern (migrate_resolver outbound).0
stepped-IsModern outbound m changed e h = subst IsModern (sym (ap (λ r. r.0) e)) h

fresh-IsModern :
    (outbound : Fields)
    → has_field strategy_key outbound ≡ false
    → migrate_resolver outbound ≡ (set_field resolver_key (obj new_resolver) outbound, true)
    → IsModern (migrate_resolver outbound).0
unfolding find_field text_eq
fresh-IsModern outbound absent e =
    stepped-IsModern outbound _ true e (set_resolver-IsModern new_resolver outbound absent refl)

migrate_resolver-IsModern :
    (outbound : Fields) (found : Option Json)
    → has_field strategy_key outbound ≡ false
    → find_field resolver_key outbound ≡ found
    → IsModern (migrate_resolver outbound).0
unfolding migrate_resolver
migrate_resolver-IsModern outbound none h e = fresh-IsModern outbound h (ground (arith, e))
migrate_resolver-IsModern outbound (some null) h e = fresh-IsModern outbound h (ground (arith, e))
migrate_resolver-IsModern outbound (some (bool b)) h e =
    fresh-IsModern outbound h (ground (arith, e))
migrate_resolver-IsModern outbound (some (num n)) h e =
    fresh-IsModern outbound h (ground (arith, e))
migrate_resolver-IsModern outbound (some (str s)) h e =
    fresh-IsModern outbound h (ground (arith, e))
migrate_resolver-IsModern outbound (some (arr items)) h e =
    fresh-IsModern outbound h (ground (arith, e))
migrate_resolver-IsModern outbound (some (obj resolver)) h e =
    elim (Bool-cases (is_text (find_field (codes "strategy") resolver) ipv4_only)) [
      | inl k ↦
          stepped-IsModern outbound outbound false (ground (arith, e, k)) (h, (resolver, e, k))
      | inr k ↦ stepped-IsModern outbound _ true (ground (arith, e, k)) (
          set_resolver-IsModern (set_field (codes "strategy") (str ipv4_only) resolver) outbound h
            (strategy_set resolver))
    ]

migrate_direct-IsModern : (outbound : Fields) → IsModern (migrate_direct outbound).0
unfolding migrate_direct
migrate_direct-IsModern outbound =
    migrate_resolver-IsModern (delete_field strategy_key outbound) _
      (has-delete strategy_key outbound) refl

outbound-AllModern :
    (value : Json) (rest : Items)
    → AllModern rest
    → AllModern (cons (migrate_outbound value).0 rest)
unfolding migrate_outbound
outbound-AllModern null rest h = h
outbound-AllModern (bool b) rest h = h
outbound-AllModern (num n) rest h = h
outbound-AllModern (str s) rest h = h
outbound-AllModern (arr items) rest h = h
outbound-AllModern (obj outbound) rest h = elim (Bool-cases (is_direct outbound)) [
  | inl e ↦ rw e (inr (migrate_direct-IsModern outbound), h)
  | inr e ↦ rw e (inl e, h)
]

outbounds-AllModern : (items : Items) → AllModern (migrate_outbounds items).0
unfolding migrate_outbounds
outbounds-AllModern nil = tt
outbounds-AllModern (cons value rest) =
    outbound-AllModern value (migrate_outbounds rest).0 (outbounds-AllModern rest)

resolver-same :
    (outbound : Fields)
    → (migrate_resolver outbound).1 ≡ false
    → (migrate_resolver outbound).0 ≡ outbound
resolver-same outbound h = elim (resolver-cases outbound (find_field resolver_key outbound) refl) [
  | inl e ↦ ap (λ r. r.0) e
  | inr (v, e) ↦ cc
]

-- Where the loop reports no change, there is none.
outbound-same :
    (value : Json) → (migrate_outbound value).1 ≡ false → (migrate_outbound value).0 ≡ value
unfolding migrate_outbound migrate_direct
outbound-same null h = refl
outbound-same (bool b) h = refl
outbound-same (num n) h = refl
outbound-same (str s) h = refl
outbound-same (arr items) h = refl
outbound-same (obj outbound) h =
    ground (
      arith,
      resolver-same (delete_field strategy_key outbound),
      delete-absent strategy_key outbound,
    )

outbounds-same :
    (items : Items) → (migrate_outbounds items).1 ≡ false → (migrate_outbounds items).0 ≡ items
unfolding migrate_outbounds
outbounds-same nil h = refl
outbounds-same (cons value rest) h = ground (arith, outbound-same value, outbounds-same rest)

-- What the migration leaves of a configuration with these outbounds.
abbrev pub Migrated : Fields → Items → Type 0
Migrated config outbounds =
    (after : Fields) × ((migrate_config (obj config)).0 ≡ obj after)
    × (find_field (codes "outbounds") after ≡ some (arr (migrate_outbounds outbounds).0))
    × AllModern (migrate_outbounds outbounds).0
    × (migrate_config (obj after) ≡ (obj after, false))

-- The migration leaves every direct outbound of a configuration without `domain_strategy` and with
-- a resolver whose strategy is `ipv4_only`; and what it leaves passes it again unchanged, with no
-- change reported.
pub migrate_config-AllModern :
    (config : Fields) (outbounds : Items)
    → find_field (codes "outbounds") config ≡ some (arr outbounds)
    → Migrated config outbounds
unfolding migrate_config
migrate_config-AllModern config outbounds e = elim (Bool-cases (migrate_outbounds outbounds).1) [
  | inl k ↦
      let migrated = (migrate_outbounds outbounds).0 in
      let after = with_local_dns (set_field (codes "outbounds") (arr migrated) config) in
      (
        after,
        ground (arith, e, k),
        outbounds_kept config migrated,
        outbounds-AllModern outbounds,
        config_done after outbounds (outbounds_kept config migrated),
      )
  | inr k ↦
      let found : find_field (codes "outbounds") config
          ≡ some (arr (migrate_outbounds outbounds).0) =
        e ∙ ap (λ v. some (arr v)) (sym (outbounds-same outbounds k)) in
      (
        config,
        ground (arith, e, k),
        found,
        outbounds-AllModern outbounds,
        config_done config outbounds found,
      )
]
