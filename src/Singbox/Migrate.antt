-- ===== src/Singbox/Migrate.antt =====
-- singbox-core/src/subcommands/supervise.ts: `migrateLegacyDomainStrategyConfig`.
use cool_tunnel_server.Security.Json.{
  Json, Fields, Items, obj, find_field, delete_field, is_text, cons, set_field, field, str,
  has_field, end, arr, nil,
}
use cool_tunnel_server.Base.Texts.{Text, codes}
use cool_tunnel_server.Base.{Bool, true, false, ◌||◌, some, if◌then◌else◌}

abbrev pub local_dns : Text
local_dns = codes "local-dns"

abbrev pub ipv4_only : Text
ipv4_only = codes "ipv4_only"

-- `{ server: "local-dns", strategy: "ipv4_only" }`
abbrev pub new_resolver : Fields
new_resolver = field (codes "server") (str local_dns) (field (codes "strategy") (str ipv4_only) end)

-- The resolver of an outbound, and whether it has changed.
unfoldable pub migrate_resolver : Fields → Fields × Bool
migrate_resolver outbound = elim (find_field (codes "domain_resolver") outbound) [
  | some (obj resolver) ↦
      if is_text (find_field (codes "strategy") resolver) ipv4_only then (outbound, false) else (
        set_field (codes "domain_resolver")
            (obj (set_field (codes "strategy") (str ipv4_only) resolver)) outbound,
        true,
      )
  | _ ↦ (set_field (codes "domain_resolver") (obj new_resolver) outbound, true)
]

-- The body of the loop for a direct outbound.
unfoldable pub migrate_direct : Fields → Fields × Bool
unfolding migrate_resolver
migrate_direct outbound =
    let (resolved, changed) = migrate_resolver (delete_field (codes "domain_strategy") outbound) in
    (resolved, has_field (codes "domain_strategy") outbound || changed)

-- `isRecord(outbound) && outbound.type === "direct"`
abbrev pub is_direct : Fields → Bool
is_direct outbound = is_text (find_field (codes "type") outbound) (codes "direct")

unfoldable pub migrate_outbound : Json → Json × Bool
unfolding migrate_direct
migrate_outbound (obj outbound) =
    if is_direct outbound
    then (let (migrated, changed) = migrate_direct outbound in (obj migrated, changed))
    else (obj outbound, false)
migrate_outbound value = (value, false)

-- The loop.
unfoldable pub migrate_outbounds : Items → Items × Bool
unfolding migrate_outbound
migrate_outbounds nil = (nil, false)
migrate_outbounds (cons value rest) =
    let (first, changed) = migrate_outbound value in
    let (more, others) = migrate_outbounds rest in (cons first more, changed || others)

-- `isRecord(server) && server.tag === "local-dns"`
abbrev pub is_local_dns : Json → Bool
is_local_dns (obj server) = is_text (find_field (codes "tag") server) local_dns
is_local_dns _ = false

unfoldable pub has_local_dns : Items → Bool
has_local_dns nil = false
has_local_dns (cons server rest) = is_local_dns server || has_local_dns rest

abbrev new_server : Json
new_server =
    obj (field (codes "type") (str (codes "local")) (field (codes "tag") (str local_dns) end))

-- `servers.push(…)` where none is the local one.
unfoldable pub push_local_dns : Items → Items
push_local_dns nil = cons new_server nil
push_local_dns (cons server rest) =
    let more = push_local_dns rest in cons server (if is_local_dns server then rest else more)

-- `isRecord(config.dns) ? config.dns : {}`
abbrev dns_of : Fields → Fields
dns_of config = elim (find_field (codes "dns") config) [ some (obj dns) ↦ dns | _ ↦ end ]

-- `Array.isArray(dns.servers) ? dns.servers : []`
abbrev servers_of : Fields → Items
servers_of dns = elim (find_field (codes "servers") dns) [ some (arr servers) ↦ servers | _ ↦ nil ]

-- The rest of the function where an outbound has changed.
unfoldable pub with_local_dns : Fields → Fields
unfolding has_local_dns push_local_dns
with_local_dns config =
    let dns = dns_of config in
    set_field (codes "dns")
      (obj (set_field (codes "servers") (arr (push_local_dns (servers_of dns))) dns)) config

-- The configuration behind the call, and what it returns.
unfoldable pub migrate_config : Json → Json × Bool
unfolding migrate_outbounds with_local_dns
migrate_config (obj config) = elim (find_field (codes "outbounds") config) [
  | some (arr outbounds) ↦
      let (migrated, changed) = migrate_outbounds outbounds in
      if changed
      then (obj (with_local_dns (set_field (codes "outbounds") (arr migrated) config)), true)
      else (obj config, false)
  | _ ↦ (obj config, false)
]
migrate_config config = (config, false)
