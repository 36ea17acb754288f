-- ===== src/Store/AuditedCalls.antt =====
-- packages/db/src/store.ts: the entries that the operations of the administrators add to the audit log.
use cool_tunnel_server.Base.{◌≡◌, Option, some}
use cool_tunnel_server.Base.Results.{ok}
use cool_tunnel_server.Base.Texts.{Text, codes}
use cool_tunnel_server.Store.Db.{Db, AdminUser}
use cool_tunnel_server.Store.Monad.{Host, Env}
use cool_tunnel_server.Store.Steps.{Steps}
use cool_tunnel_server.Store.Users.{Actor, UpdateUserInput}
use cool_tunnel_server.Store.NewUser.{CreateUserInput}
use cool_tunnel_server.Store.Update.{update_user}
use cool_tunnel_server.Store.Accounts.{
  actor_id, create_user, reset_password, change_own_password, delete_user, mark_login,
}
use cool_tunnel_server.Store.ProxyInput.{
  CreateProxyAccountInput, UpdateProxyAccountInput, ProxyView,
}
use cool_tunnel_server.Store.Proxy.{
  create_proxy_account, update_proxy_account, regenerate_proxy_uuid, reveal_proxy_subscription,
  delete_proxy_account,
}
use cool_tunnel_server.Store.Settings.{SettingsInput, ServerSettings}
use cool_tunnel_server.Store.SettingsUpdate.{update_settings}

module _ (host : Host) where
  -- A run of an operation that returned, with the actor and the action that it stands for.
  pub data Ran (db : Db) : Option Text → Text → Db → Type 0 where
    ran_update_user :
        (env : Env) (actor : Actor) (id : Text) (input : UpdateUserInput) (result : AdminUser)
        → (update_user host env actor id input db).0 ≡ ok result
        → Ran db (some actor.id) (codes "user.updated") (update_user host env actor id input db).1
    ran_create_user :
        (env : Env) (actor : Option Actor) (input : CreateUserInput) (result : AdminUser)
        → (create_user host env actor input db).0 ≡ ok result
        → Ran db (actor_id actor) (codes "user.created") (create_user host env actor input db).1
    ran_reset_password :
        (env : Env) (actor : Actor) (id hash : Text) (result : AdminUser)
        → (reset_password host env actor id hash db).0 ≡ ok result
        → Ran db
            (some actor.id)
            (codes "user.password_reset")
            (reset_password host env actor id hash db).1
    ran_change_own_password :
        (env : Env) (id hash keep : Text) (ip : Option Text) (result : Unit {0})
        → (change_own_password host env id hash keep ip db).0 ≡ ok result
        → Ran db
            (some id)
            (codes "user.password_changed")
            (change_own_password host env id hash keep ip db).1
    ran_delete_user :
        (env : Env) (actor : Actor) (id : Text) (result : Unit {0})
        → (delete_user host env actor id db).0 ≡ ok result
        → Ran db (some actor.id) (codes "user.deleted") (delete_user host env actor id db).1
    ran_mark_login :
        (env : Env) (id : Text) (ip : Option Text) (result : Unit {0})
        → (mark_login host env id ip db).0 ≡ ok result
        → Ran db (some id) (codes "auth.login") (mark_login host env id ip db).1
    ran_create_proxy_account :
        (env : Env) (actor : Actor) (input : CreateProxyAccountInput) (result : ProxyView)
        → (create_proxy_account host env actor input db).0 ≡ ok result
        → Ran db
            (some actor.id)
            (codes "proxy_account.created")
            (create_proxy_account host env actor input db).1
    ran_update_proxy_account :
        (env : Env) (actor : Actor) (id : Text) (input : UpdateProxyAccountInput)
        (result : ProxyView)
        → (update_proxy_account host env actor id input db).0 ≡ ok result
        → Ran db
            (some actor.id)
            (codes "proxy_account.updated")
            (update_proxy_account host env actor id input db).1
    ran_regenerate_proxy_uuid :
        (env : Env) (actor : Actor) (until id : Text) (result : ProxyView)
        → (regenerate_proxy_uuid host env actor until id db).0 ≡ ok result
        → Ran db
            (some actor.id)
            (codes "proxy_account.uuid_rotated")
            (regenerate_proxy_uuid host env actor until id db).1
    ran_reveal_proxy_subscription :
        (env : Env) (actor : Actor) (id : Text) (result : ProxyView)
        → (reveal_proxy_subscription host env actor id db).0 ≡ ok result
        → Ran db
            (some actor.id)
            (codes "proxy_account.subscription_revealed")
            (reveal_proxy_subscription host env actor id db).1
    ran_delete_proxy_account :
        (env : Env) (actor : Actor) (id : Text) (result : Unit {0})
        → (delete_proxy_account host env actor id db).0 ≡ ok result
        → Ran db
            (some actor.id)
            (codes "proxy_account.deleted")
            (delete_proxy_account host env actor id db).1
    ran_update_settings :
        (env : Env) (actor : Actor) (input : SettingsInput) (result : ServerSettings)
        → (update_settings host env actor input db).0 ≡ ok result
        → Ran db
            (some actor.id)
            (codes "settings.updated")
            (update_settings host env actor input db).1
