-- ===== src/Api/Reached.antt =====
-- What the handlers of apps/api/src/app.ts do to the database is a history of store calls.
use cool_tunnel_server.Store.ProxyInput.{CreateProxyAccountInput, UpdateProxyAccountInput}
use cool_tunnel_server.Store.NewUser.{CreateUserInput}
use cool_tunnel_server.Store.Settings.{ensure_defaults, record_render, SettingsInput}
use cool_tunnel_server.Security.Json.{Fields}
use cool_tunnel_server.Store.Users.{Actor, UpdateUserInput}
use cool_tunnel_server.Config.{AdminConfig}
use cool_tunnel_server.Base.Texts.{Text}
use cool_tunnel_server.Store.Db.{Db, ProxyRow, ServerConfig}
use cool_tunnel_server.Base.{
  ℕ, ◌≡◌, refl, sym, ap, ◌∙◌, Bool, Option, some, none, List, [], ◌∷◌, ◌++◌,
}
use cool_tunnel_server.Base.Results.{Fault}
use cool_tunnel_server.Store.Monad.{M, Host, Env, audit_row}
use cool_tunnel_server.Store.Steps.{IsPreorder, Steps, step_rules, return-Steps, fail-Steps}
use cool_tunnel_server.Store.SettingsUpdate.{get_settings, update_settings, load_settings}
use cool_tunnel_server.Store.Update.{update_user}
use cool_tunnel_server.Store.Accounts.{
  create_user, reset_password, change_own_password, delete_user, mark_login,
}
use cool_tunnel_server.Store.Proxy.{
  show, get_proxy_account, require_proxy, create_proxy_account, update_proxy_account,
  set_proxy_enabled, regenerate_proxy_uuid, reveal_proxy_subscription, delete_proxy_account,
}
use cool_tunnel_server.Store.History.{
  Call, run_call, history, updates, creates, resets, changes_password, deletes, logs_in,
  makes_proxy, changes_proxy, rotates_proxy, reveals_proxy, drops_proxy, sets_settings,
  makes_defaults, audits, records_render,
}

module _ (host : Host) where
  -- Some history of calls leads from one database to the other.
  unfoldable pub Reached : Db → Db → Type 0
  Reached db after = (cs : List Call) × (after ≡ history host cs db)

  history-append :
      (cs ds : List Call) (db : Db)
      → history host (cs ++ ds) db ≡ history host ds (history host cs db)
  unfolding history
  history-append [] ds db = refl
  history-append (c ∷ cs) ds db = history-append cs ds (run_call host c db)

  pub Reached-order : IsPreorder Reached
  unfolding Reached history
  Reached-order = record {
    same = λ db. ([], refl);
    trans = λ a b c (cs, p) (ds, q).
        (cs ++ ds, q ∙ (ap (history host ds) p ∙ sym (history-append cs ds a)));
  }

  pub call-Reached : (c : Call) (db : Db) → Reached db (run_call host c db)
  unfolding Reached history
  call-Reached c db = (c ∷ [], refl)

  -- An effect whose database is that of a call.
  pub call-Steps :
      {A : Type 0} (m : M A) (c : Call)
      → ((db : Db) → (m db).1 ≡ run_call host c db)
      → Steps Reached m
  unfolding Reached history Steps
  call-Steps m c h db = (c ∷ [], h db)

  pub audit-Reached :
      (at : ℕ) (actor : Option Text) (action : Text) (target_type target_id : Option Text)
      (detail : Fields) (db : Db)
      → Reached db (audit_row host at actor action target_type target_id detail db)
  unfolding run_call
  audit-Reached at actor action target_type target_id detail db =
      call-Reached (audits at actor action target_type target_id detail) db

  defaults-Reached :
      (config : AdminConfig) (now : ℕ) (db : Db) → Reached db (ensure_defaults config now db)
  unfolding run_call
  defaults-Reached config now db = call-Reached (makes_defaults config now) db

  pub render-Reached :
      (hash : Text) (at updated : ℕ) (db : Db) → Reached db (record_render hash at updated db)
  unfolding run_call
  render-Reached hash at updated db = call-Reached (records_render hash at updated) db

  load_settings-Reached :
      (config : Option AdminConfig) (now : ℕ) (row : Option ServerConfig)
      → Steps Reached (load_settings config now row)
  unfolding load_settings
  load_settings-Reached config now (some row) = return-Steps Reached-order _
  load_settings-Reached none now none = fail-Steps Reached-order _ _
  load_settings-Reached (some config) now none =
      search (step_rules, Reached-order, defaults-Reached)

  pub get_settings-Reached : (now : ℕ) → Steps Reached (get_settings host now)
  unfolding get_settings Steps
  get_settings-Reached now db = load_settings-Reached host.config now db.server_config db

  show-Reached : (env : Env) (row : ProxyRow) → Steps Reached (show host env row)
  unfolding show
  show-Reached env row = search (step_rules, Reached-order, get_settings-Reached)

  pub get_proxy-Reached :
      (env : Env) (fault : Fault) (id : Text) → Steps Reached (get_proxy_account host env fault id)
  unfolding get_proxy_account require_proxy
  get_proxy-Reached env fault id = search (step_rules, Reached-order, show-Reached)

  pub update_user-Reached :
      (env : Env) (actor : Actor) (id : Text) (input : UpdateUserInput)
      → Steps Reached (update_user host env actor id input)
  unfolding run_call
  update_user-Reached env actor id input = call-Steps _ (updates env actor id input) (λ db. refl)

  pub create_user-Reached :
      (env : Env) (actor : Option Actor) (input : CreateUserInput)
      → Steps Reached (create_user host env actor input)
  unfolding run_call
  create_user-Reached env actor input = call-Steps _ (creates env actor input) (λ db. refl)

  pub reset_password-Reached :
      (env : Env) (actor : Actor) (id hash : Text)
      → Steps Reached (reset_password host env actor id hash)
  unfolding run_call
  reset_password-Reached env actor id hash = call-Steps _ (resets env actor id hash) (λ db. refl)

  pub change_password-Reached :
      (env : Env) (id hash keep : Text) (ip : Option Text)
      → Steps Reached (change_own_password host env id hash keep ip)
  unfolding run_call
  change_password-Reached env id hash keep ip =
      call-Steps _ (changes_password env id hash keep ip) (λ db. refl)

  pub delete_user-Reached :
      (env : Env) (actor : Actor) (id : Text) → Steps Reached (delete_user host env actor id)
  unfolding run_call
  delete_user-Reached env actor id = call-Steps _ (deletes env actor id) (λ db. refl)

  pub mark_login-Reached :
      (env : Env) (id : Text) (ip : Option Text) → Steps Reached (mark_login host env id ip)
  unfolding run_call
  mark_login-Reached env id ip = call-Steps _ (logs_in env id ip) (λ db. refl)

  pub create_proxy-Reached :
      (env : Env) (actor : Actor) (input : CreateProxyAccountInput)
      → Steps Reached (create_proxy_account host env actor input)
  unfolding run_call
  create_proxy-Reached env actor input = call-Steps _ (makes_proxy env actor input) (λ db. refl)

  pub update_proxy-Reached :
      (env : Env) (actor : Actor) (id : Text) (input : UpdateProxyAccountInput)
      → Steps Reached (update_proxy_account host env actor id input)
  unfolding run_call
  update_proxy-Reached env actor id input =
      call-Steps _ (changes_proxy env actor id input) (λ db. refl)

  pub set_proxy_enabled-Reached :
      (env : Env) (actor : Actor) (id : Text) (enabled : Bool)
      → Steps Reached (set_proxy_enabled host env actor id enabled)
  unfolding set_proxy_enabled
  set_proxy_enabled-Reached env actor id enabled = update_proxy-Reached env actor id _

  pub regenerate-Reached :
      (env : Env) (actor : Actor) (until_text id : Text)
      → Steps Reached (regenerate_proxy_uuid host env actor until_text id)
  unfolding run_call
  regenerate-Reached env actor until_text id =
      call-Steps _ (rotates_proxy env actor until_text id) (λ db. refl)

  pub reveal-Reached :
      (env : Env) (actor : Actor) (id : Text)
      → Steps Reached (reveal_proxy_subscription host env actor id)
  unfolding run_call
  reveal-Reached env actor id = call-Steps _ (reveals_proxy env actor id) (λ db. refl)

  pub delete_proxy-Reached :
      (env : Env) (actor : Actor) (id : Text)
      → Steps Reached (delete_proxy_account host env actor id)
  unfolding run_call
  delete_proxy-Reached env actor id = call-Steps _ (drops_proxy env actor id) (λ db. refl)

  pub update_settings-Reached :
      (env : Env) (actor : Actor) (input : SettingsInput)
      → Steps Reached (update_settings host env actor input)
  unfolding run_call
  update_settings-Reached env actor input =
      call-Steps _ (sets_settings env actor input) (λ db. refl)

  pub ruleset reached_rules = (
    step_rules, Reached-order, audit-Reached, render-Reached, get_settings-Reached,
    get_proxy-Reached, update_user-Reached, create_user-Reached, reset_password-Reached,
    change_password-Reached, delete_user-Reached, create_proxy-Reached, update_proxy-Reached,
    set_proxy_enabled-Reached, regenerate-Reached, reveal-Reached, delete_proxy-Reached,
    update_settings-Reached,
  )
