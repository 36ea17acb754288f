-- ===== src/Examples/PublicCases.antt =====
-- The theorems on the public endpoint, the settings, the audit log and the input of proxy accounts at
-- concrete calls.
use cool_tunnel_server.Base.{
  ℕ, ◌≤◌, ◌≡◌, refl, sym, ◌∙◌, ◌≢◌, true, false, some, none, [], ◌∷◌, arith, ◌==◌,
}
use cool_tunnel_server.Base.Texts.{Text, codes, text_eq}
use cool_tunnel_server.Base.Tables.{any, count, find?, update_where}
use cool_tunnel_server.Security.Validate.{
  well_formed, constant_time_equal, validate_username, validate_name, validate_id,
  normalize_username, normalize_domain,
}
use cool_tunnel_server.Shared.Roles.{
  can_manage_target, UserStatus, ProxyAccountStatus, vless_reality,
}
use cool_tunnel_server.Store.Monad.{
  ◌>>=◌, ◌>>◌, return, read, write, fail_if, write_unless, write_if, Host,
}
use cool_tunnel_server.Store.Users.{
  require_user, assert_last_owner_preserved, check_update, next_email, next_username, next_name,
  plan_update,
}
use cool_tunnel_server.Store.Update.{
  conflicts, set_user, delete_sessions_of, write_update, update_user, update_user_with,
}
use cool_tunnel_server.Store.Tokens.{to_plain_base64, signature_matches, resolve_subscription_token}
use cool_tunnel_server.Store.ProxyInput.{
  normal_port, normal_expiry, normalize_proxy_input, proxy_status, CreateProxyAccountInput,
  NormalProxyInput, whole,
}
use cool_tunnel_server.Store.Settings.{row_to_settings, default_row}
use cool_tunnel_server.Store.SettingsUpdate.{load_settings, get_settings}
use cool_tunnel_server.Store.Audit.{list_audit, floor}
use cool_tunnel_server.Api.Subscription.{
  is_unavailable, lacks_keys, signed_manifest, answer_subscription, answer_row,
  subscription_response, manifest, cover,
}
use cool_tunnel_server.Base.Results.{ok}
use cool_tunnel_server.Base.Texts.{length}
use cool_tunnel_server.Security.Json.{Json, null}
use cool_tunnel_server.Store.Db.{Db, AuditEntry, ServerConfig, ProxyRow, AdminUser, Session}
use cool_tunnel_server.Store.Frames.{of_user}
use cool_tunnel_server.Store.Sessions.{create_session}
use cool_tunnel_server.Store.LockOut.{disabled-locked_out}
use cool_tunnel_server.Store.AuditList.{Descends, list_audit-descending}
use cool_tunnel_server.Store.ProxyLaws.{normalize_proxy_input-valid}
use cool_tunnel_server.Api.SubscriptionLaws.{
  subscription_response-manifest, subscription_response-cover,
}
use cool_tunnel_server.Examples.{
  host, platform, config, env, db, viewer_id, viewer_row, proxy_row, the_owner, disabling,
}

abbrev panel : Host
panel = record host { config = some config }

abbrev token : Text
token = platform.to_base64url (codes "proxy-id.a")

abbrev body : Json
body =
    signed_manifest platform (codes "k") proxy_row (row_to_settings (default_row config 1000)) 1000

manifest-given : (subscription_response panel env token db).0 ≡ ok (manifest body)
unfolding find? well_formed constant_time_equal validate_id normalize_domain ◌>>=◌ ◌>>◌ return read
    write fail_if to_plain_base64 signature_matches resolve_subscription_token row_to_settings
    load_settings get_settings is_unavailable answer_subscription answer_row subscription_response
manifest-given = refl

subscription_response-manifest_example :
    (row : ProxyRow) × (stored : ServerConfig) × (resolve_subscription_token platform
        (codes "k")
        token
        db
      ≡ some row)
    × (proxy_status row 1000 ≡ ProxyAccountStatus.active)
    × (lacks_keys row (row_to_settings stored) ≡ false)
    × ((get_settings panel 1000 db).0 ≡ ok stored)
    × (body ≡ signed_manifest platform (codes "k") row (row_to_settings stored) 1000)
subscription_response-manifest_example =
    subscription_response-manifest panel env db token body manifest-given

nothing-resolved : resolve_subscription_token platform (codes "k") (codes "zz") db ≡ none
unfolding normalize_domain to_plain_base64 resolve_subscription_token
nothing-resolved = refl

none_not_some : (row : ProxyRow) → none ≢ some row
none_not_some row e = cc

not-resolved :
    (row : ProxyRow)
    → resolve_subscription_token platform (codes "k") (codes "zz") db ≡ some row
    → proxy_status row 1000 ≢ ProxyAccountStatus.active
not-resolved row e h = elim (none_not_some row (sym nothing-resolved ∙ e)) [ ]

subscription_response-cover_example :
    subscription_response panel env (codes "zz") db ≡ (ok cover, db)
subscription_response-cover_example =
    subscription_response-cover panel env db (codes "zz") refl not-resolved

abbrev entry : ℕ → AuditEntry
entry id = record {
  id = id;
  action = codes "auth.login";
  actor_user_id = none;
  target_type = none;
  target_id = none;
  detail = null;
  created_at = 5;
}

abbrev logged : Db
logged = record db { audit_log = entry 1 ∷ entry 2 ∷ entry 3 ∷ [] }

list_audit-descending_example :
    (length (list_audit (floor 2) logged) ≤ 250)
    × Descends 3 (list_audit (floor 2) logged)
    × (count (λ e. e.id == 3) (list_audit (floor 2) logged)
        ≤ count (λ e. e.id == 3) logged.audit_log)
list_audit-descending_example =
    list_audit-descending (floor 2) logged 3 (λ e. e.id == 3)
      (omega arith, (omega arith, (omega arith, tt)))

abbrev disabled_viewer : AdminUser
disabled_viewer = record viewer_row {
  status = UserStatus.disabled;
  updated_at = 1000;
  disabled_at = some 1000;
}

viewer-returned : (update_user host env the_owner viewer_id disabling db).0 ≡ ok disabled_viewer
unfolding text_eq any find? update_where validate_name validate_id ◌>>=◌ ◌>>◌ return read write
    write_unless write_if require_user assert_last_owner_preserved check_update next_email
    next_username next_name plan_update conflicts set_user delete_sessions_of write_update fail_if
    update_user update_user_with can_manage_target
viewer-returned = refl

disabled-locked_out_example :
    (count (of_user viewer_id) (update_user host env the_owner viewer_id disabling db).1.sessions
      ≡ 0)
    × ((s : Session)
        → s.user_id ≡ viewer_id
        → create_session s (update_user host env the_owner viewer_id disabling db).1
          ≡ (update_user host env the_owner viewer_id disabling db).1)
disabled-locked_out_example =
    disabled-locked_out host env the_owner viewer_id db disabling disabled_viewer viewer-returned
      refl

abbrev phone : CreateProxyAccountInput
phone = record {
  username = codes "phone";
  label = some (codes " ");
  enabled = none;
  client_default_local_port = some (whole 2000);
  enabled_protocols = none;
  expires_at = none;
}

abbrev normal_phone : NormalProxyInput
normal_phone = record {
  username = codes "phone";
  label = none;
  enabled = true;
  client_default_local_port = 2000;
  enabled_protocols = vless_reality ∷ [];
  expires_at = none;
}

phone-accepted : normalize_proxy_input platform phone ≡ ok normal_phone
unfolding normalize_username normal_port normal_expiry normalize_proxy_input
phone-accepted = refl

normalize_proxy_input-valid_example :
    (1024 ≤ 2000)
    × (2000 ≤ 65535)
    × (validate_username (codes "phone") ≡ true)
    × (normal_phone.label ≢ some [])
normalize_proxy_input-valid_example =
    normalize_proxy_input-valid platform phone normal_phone phone-accepted

abbrev kept_row : ServerConfig
kept_row = record (default_row config 5) { reality_public_key = codes "kept" }
