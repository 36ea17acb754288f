-- ===== src/Examples/UserCases.antt =====
-- The theorems on `updateUser`, `createFirstOwner` and the subscription tokens at concrete calls.
use cool_tunnel_server.Base.{
  ◌<◌, ◌≡◌, ◌⊎◌, refl, true, false, not, ◌&&◌, some, none, [], ◌∷◌, arith,
}
use cool_tunnel_server.Base.Texts.{Text, codes, text_eq, is_empty}
use cool_tunnel_server.Base.Tables.{any, count, find?, update_where}
use cool_tunnel_server.Base.Results.{ok, throw, plain}
use cool_tunnel_server.Security.Texts.{every, is_lower_hex}
use cool_tunnel_server.Security.Validate.{
  validate_name, validate_id, is_domain, normalize_username, normalize_email,
}
use cool_tunnel_server.Shared.Roles.{owner, viewer, UserStatus, role_eq, can_manage_target}
use cool_tunnel_server.Store.Db.{AdminUser, BootstrapToken}
use cool_tunnel_server.Store.Monad.{
  ◌>>=◌, ◌>>◌, return, fail, read, write, fail_if, write_unless, write_if, transaction, audit_row,
}
use cool_tunnel_server.Store.Users.{
  owner_count, has_owner, has_id, get_user, require_user, assert_last_owner_preserved, check_update,
  next_email, next_username, next_name, plan_update, UserPlan,
}
use cool_tunnel_server.Store.Update.{
  Failures, no_failures, conflicts, set_user, delete_sessions_of, write_update, update_user,
  update_user_with,
}
use cool_tunnel_server.Store.Bootstrap.{
  has_hash, is_unused, use_token, mark_used, consume_bootstrap_token_hash, require_consumed,
  token_conflicts, first_owner, create_first_owner,
}
use cool_tunnel_server.Store.NewUser.{new_user}
use cool_tunnel_server.Store.Accounts.{
  insert_conflicts, insert_user_row, insert_account_row, insert_user,
}
use cool_tunnel_server.Store.Tokens.{
  signed_text, dot_parts, to_plain_base64, row_has_id, subscription_token, signature_matches,
  resolve_subscription_token, mask_subscription_url, subscription_url_for,
}
use cool_tunnel_server.Store.Guards.{SparesOwner}
use cool_tunnel_server.Security.Platform.{Platform}
use cool_tunnel_server.Store.MaskedUrl.{masked_form, mask_subscription_url-hides}
use cool_tunnel_server.Store.UpdateLaws.{update_user-privilege}
use cool_tunnel_server.Store.Failures.{CutOff, update_user_with-left}
use cool_tunnel_server.Store.BootstrapLaws.{create_first_owner-checks}
use cool_tunnel_server.Store.TokenLaws.{
  is_ascii, resolve_subscription_token-subscription_token, resolve_subscription_token_sound,
}
use cool_tunnel_server.Examples.{
  the_owner, disabling, first_input, host, platform, env, db, empty_db, viewer_id, proxy_row,
  proxy_id, viewer_row, good_token, row,
}

-- The DELETE fails.
abbrev no_delete : Failures
no_delete = record no_failures { deletes = true }

delete-failed :
    (update_user_with host no_delete env the_owner viewer_id disabling db).0 ≡ throw plain
unfolding any find? validate_name validate_id is_domain ◌>>=◌ ◌>>◌ return read write_unless fail_if
    can_manage_target require_user assert_last_owner_preserved check_update next_email next_username
    next_name plan_update conflicts set_user write_update update_user_with
delete-failed = refl

update_user_with-left_example :
    ((update_user_with host no_delete env the_owner viewer_id disabling db).1 ≡ db)
    ⊎ ((plan : UserPlan) × (plan_update host the_owner viewer_id disabling db ≡ ok plan)
        × (conflicts plan viewer_id db ≡ false)
        × CutOff host no_delete env the_owner viewer_id db disabling plan
            (update_user_with host no_delete env the_owner viewer_id disabling db).1)
update_user_with-left_example =
    update_user_with-left host no_delete env the_owner viewer_id db disabling plain delete-failed

abbrev disabled_viewer : AdminUser
disabled_viewer = record viewer_row {
  status = UserStatus.disabled;
  updated_at = 1000;
  disabled_at = some 1000;
}

viewer-disabled : (update_user host env the_owner viewer_id disabling db).0 ≡ ok disabled_viewer
unfolding any find? update_where validate_name validate_id is_domain ◌>>=◌ ◌>>◌ return read write
    write_unless write_if can_manage_target require_user assert_last_owner_preserved check_update
    next_email next_username next_name plan_update conflicts set_user delete_sessions_of
    write_update update_user update_user_with fail_if
viewer-disabled = refl

update_user-privilege_example :
    (target : AdminUser) × (find? (has_id viewer_id) db.users ≡ some target)
    × (can_manage_target owner target.role ≡ true)
    × ((role_eq viewer owner && not (role_eq owner owner)) ≡ false)
    × SparesOwner target (role_eq viewer owner && false) db
update_user-privilege_example =
    update_user-privilege host env the_owner viewer_id db disabling disabled_viewer viewer-disabled

abbrev first_row : AdminUser
first_row = record (row (codes "new-user-1") (codes "a@x.io") (codes "first") owner) {
  name = codes "First";
  created_at = 1000;
  updated_at = 1000;
}

first-created : (create_first_owner host env first_input (codes "h") empty_db).0 ≡ ok first_row
unfolding find? any update_where validate_id validate_name normalize_email normalize_username ◌>>=◌
    ◌>>◌ return fail read write fail_if write_unless transaction audit_row owner_count has_owner
    require_user get_user token_conflicts use_token mark_used consume_bootstrap_token_hash
    require_consumed new_user insert_conflicts insert_user_row insert_account_row insert_user
    first_owner create_first_owner count text_eq
first-created = refl

create_first_owner-checks_example :
    (owner_count empty_db ≡ 0)
    × (role_eq owner owner ≡ true)
    × ((t : BootstrapToken) × (find? (has_hash (codes "h")) (good_token ∷ []) ≡ some t)
        × (is_unused t ≡ true)
        × (1000 < t.expires_at))
create_first_owner-checks_example =
    create_first_owner-checks host env first_input (codes "h") empty_db first_row first-created

abbrev secret : Text
secret = codes "k"

abbrev token : Text
token = platform.to_base64url (codes "proxy-id.a")

plain-base64 :
    (s : Text)
    → every is_ascii s ≡ true
    → platform.of_base64 (to_plain_base64 (platform.to_base64url s)) ≡ s
unfolding every to_plain_base64
plain-base64 [] h = refl
plain-base64 (c ∷ s) h = ground (arith, plain-base64 s)

hex-digest : (key message : Text) → every is_lower_hex (platform.hmac_hex key message) ≡ true
unfolding every
hex-digest key message = refl

token-resolves : resolve_subscription_token platform secret token db ≡ some proxy_row
unfolding every validate_id find? text_eq subscription_token signed_text
token-resolves =
    resolve_subscription_token-subscription_token platform secret plain-base64 hex-digest proxy_row
      db token refl refl refl refl

resolve_subscription_token-subscription_token_example :
    resolve_subscription_token platform secret token db ≡ some proxy_row
unfolding every validate_id find? text_eq subscription_token signed_text
resolve_subscription_token-subscription_token_example =
    resolve_subscription_token-subscription_token platform secret plain-base64 hex-digest proxy_row
      db token refl refl refl refl

resolve_subscription_token_sound_example :
    (find? (row_has_id proxy_id) db.proxy_accounts ≡ some proxy_row)
    × ((dot_parts (codes "proxy-id.a")).0 ≡ proxy_id)
    × (signature_matches platform secret proxy_row proxy_id (dot_parts (codes "proxy-id.a")).1
        ≡ true)
    × (is_empty secret ≡ false)
unfolding to_plain_base64
resolve_subscription_token_sound_example =
    resolve_subscription_token_sound platform secret token db proxy_row token-resolves

abbrev url_platform : Platform
url_platform = record platform { to_base64url = λ s. codes "tok" }

mask_subscription_url-hides_example :
    (mask_subscription_url (subscription_url_for url_platform proxy_row (codes "p.x") (codes "k"))
      ≡ none)
    ⊎ (mask_subscription_url (subscription_url_for url_platform proxy_row (codes "p.x") (codes "k"))
        ≡ some (masked_form (codes "p.x")))
unfolding every
mask_subscription_url-hides_example =
    mask_subscription_url-hides url_platform proxy_row (codes "p.x") (codes "k") (λ s. refl) refl
