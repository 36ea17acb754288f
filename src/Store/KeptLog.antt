-- ===== src/Store/KeptLog.antt =====
-- The statements of packages/db/src/store.ts that leave the audit log as it is.
use cool_tunnel_server.Base.{ℕ, Bool, refl}
use cool_tunnel_server.Base.Texts.{Text}
use cool_tunnel_server.Config.{AdminConfig}
use cool_tunnel_server.Store.Db.{Db, AdminUser, ServerConfig, ProxyRow}
use cool_tunnel_server.Store.Monad.{Env}
use cool_tunnel_server.Store.Users.{UserPlan}
use cool_tunnel_server.Store.Update.{set_user, delete_sessions_of}
use cool_tunnel_server.Store.Accounts.{
  insert_user_row, insert_account_row, set_password, set_must_change, delete_other_sessions,
  set_last_login, delete_user_row,
}
use cool_tunnel_server.Store.Proxy.{insert_proxy_row, set_proxy_row, delete_proxy_row}
use cool_tunnel_server.Store.Settings.{ensure_defaults}
use cool_tunnel_server.Store.SettingsUpdate.{set_config}
use cool_tunnel_server.Store.Audited.{SameLog}

pub sets_user :
    (env : Env) (id : Text) (plan : UserPlan) (db : Db) → SameLog db (set_user env id plan db)
unfolding set_user
sets_user env id plan db = refl

pub deletes_sessions : (id : Text) (db : Db) → SameLog db (delete_sessions_of id db)
unfolding delete_sessions_of
deletes_sessions id db = refl

pub inserts_user : (row : AdminUser) (db : Db) → SameLog db (insert_user_row row db)
unfolding insert_user_row
inserts_user row db = refl

pub inserts_account :
    (env : Env) (row : AdminUser) (hash : Text) (db : Db)
    → SameLog db (insert_account_row env row hash db)
unfolding insert_account_row
inserts_account env row hash db = refl

pub sets_password : (ts : ℕ) (id hash : Text) (db : Db) → SameLog db (set_password ts id hash db)
unfolding set_password
sets_password ts id hash db = refl

pub sets_must_change :
    (flag : Bool) (ts : ℕ) (id : Text) (db : Db) → SameLog db (set_must_change flag ts id db)
unfolding set_must_change
sets_must_change flag ts id db = refl

pub deletes_others : (id keep : Text) (db : Db) → SameLog db (delete_other_sessions id keep db)
unfolding delete_other_sessions
deletes_others id keep db = refl

pub sets_last_login : (ts : ℕ) (id : Text) (db : Db) → SameLog db (set_last_login ts id db)
unfolding set_last_login
sets_last_login ts id db = refl

pub deletes_user : (id : Text) (db : Db) → SameLog db (delete_user_row id db)
unfolding delete_user_row
deletes_user id db = refl

pub makes_defaults :
    (config : AdminConfig) (now : ℕ) (db : Db) → SameLog db (ensure_defaults config now db)
unfolding ensure_defaults
makes_defaults config now db = refl

pub sets_config : (row : ServerConfig) (db : Db) → SameLog db (set_config row db)
unfolding set_config
sets_config row db = refl

pub inserts_row : (row : ProxyRow) (db : Db) → SameLog db (insert_proxy_row row db)
unfolding insert_proxy_row
inserts_row row db = refl

pub sets_row : (id : Text) (f : ProxyRow → ProxyRow) (db : Db) → SameLog db (set_proxy_row id f db)
unfolding set_proxy_row
sets_row id f db = refl

pub deletes_row : (id : Text) (db : Db) → SameLog db (delete_proxy_row id db)
unfolding delete_proxy_row
deletes_row id db = refl

pub ruleset kept_logs = (
  sets_user, deletes_sessions, inserts_user, inserts_account, sets_password, sets_must_change,
  deletes_others, sets_last_login, deletes_user, makes_defaults, sets_config, inserts_row, sets_row,
  deletes_row,
)
