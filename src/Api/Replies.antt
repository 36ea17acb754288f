-- ===== src/Api/Replies.antt =====
-- apps/api/src/app.ts: what the handlers answer with, and the errors that become responses.
use cool_tunnel_server.Api.Boundary.{BoundaryResult}
use cool_tunnel_server.Store.Settings.{ServerSettings}
use cool_tunnel_server.Shared.Roles.{
  AdminRole, ProxyAccountStatus, role_eq, ProtocolKey, owner, Permission, admin, UserStatus,
  permissions, has_permission,
}
use cool_tunnel_server.Store.ProxyInput.{ProxyView}
use cool_tunnel_server.Store.Db.{Session, AdminUser, AuditEntry}
use cool_tunnel_server.Base.Texts.{Text}
use cool_tunnel_server.Base.{ℕ, Bool, ◌||◌, Option, some, none, List, [], ◌∷◌, ◌==◌, if◌then◌else◌}
use cool_tunnel_server.Store.Status.{StatusSummary}
use cool_tunnel_server.Base.Results.{
  Fault, store_error, http_error, plain, internal_error, contract_violation, Code,
}
use cool_tunnel_server.Store.Monad.{M, return, fail, Host}

-- The account in a reply: its secrets are there, or have been taken out.
pub record Secrets : Type 0 where
  pub uuid : Text
  pub previous_uuid : Option Text
  pub subscription_url : Option Text

-- `ProxyAccount`: the fields that are no secrets.
pub record PublicView : Type 0 where
  pub id : Text
  pub username : Text
  pub label : Option Text
  pub status : ProxyAccountStatus
  pub enabled : Bool
  pub client_default_local_port : ℕ
  pub enabled_protocols : List ProtocolKey
  pub expires_at : Option ℕ
  pub last_seen_at : Option ℕ
  pub created_at : ℕ
  pub updated_at : ℕ
  pub previous_uuid_valid_until : Option ℕ
  pub subscription_url_masked : Option Text

pub record SentAccount : Type 0 where
  pub shown : PublicView
  pub secrets : Option Secrets

-- The payload of `ok(c, …)`.
pub data Payload : Type 0 where
  nothing : Payload
  user : AdminUser → Payload
  users : List AdminUser → Payload
  account : SentAccount → Payload
  accounts : List SentAccount → Payload
  settings : ServerSettings → Payload
  audit : List AuditEntry → Payload
  result : BoundaryResult → Payload
  summary : StatusSummary → Payload
  -- Each session with whether it is the caller's.
  sessions : List (Session × Bool) → Payload
  me : Text → AdminRole → List Permission → (csrf_token : Text) → Payload

pub record Reply : Type 0 where
  pub status : ℕ
  pub payload : Payload

-- `ok(c, payload, status, schema)`; `fits` is the verdict of the schema.
unfoldable pub ok_reply : (fits : Payload → Bool) → ℕ → Payload → M Reply
ok_reply fits status payload =
    if fits payload
    then return (record { status = status; payload = payload })
    else fail (http_error contract_violation 500)

-- `normalizeError`, on the code and the status.
unfoldable pub normalize_error : Fault → Code × ℕ
normalize_error (http_error code status) = (code, status)
normalize_error (store_error code status) = (code, status)
normalize_error plain = (internal_error, 500)

-- `statusFromError`
unfoldable pub status_from_error : Fault → ℕ
unfolding normalize_error
status_from_error fault =
    let (code, status) = normalize_error fault in
    if status == 400 || status == 403 then status else 400

-- `delete copy.uuid; delete copy.previousUuid; delete copy.subscriptionUrl`
abbrev pub public_view : ProxyView → PublicView
public_view view = record {
  id = view.id;
  username = view.username;
  label = view.label;
  status = view.status;
  enabled = view.enabled;
  client_default_local_port = view.client_default_local_port;
  enabled_protocols = view.enabled_protocols;
  expires_at = view.expires_at;
  last_seen_at = view.last_seen_at;
  created_at = view.created_at;
  updated_at = view.updated_at;
  previous_uuid_valid_until = view.previous_uuid_valid_until;
  subscription_url_masked = view.subscription_url_masked;
}

-- The whole `ProxyAccountSecretView`.
unfoldable pub with_secrets : ProxyView → SentAccount
with_secrets view = record {
  shown = public_view view;
  secrets = some (record {
    uuid = view.uuid;
    previous_uuid = view.previous_uuid;
    subscription_url = view.subscription_url;
  });
}

-- `rowToProxyAccount`
unfoldable pub without_secrets : ProxyView → SentAccount
without_secrets view = record { shown = public_view view; secrets = none }

-- `redactProxyAccountFor`
unfoldable pub redact_proxy_account_for : AdminRole → ProxyView → SentAccount
unfolding with_secrets without_secrets
redact_proxy_account_for role view =
    if role_eq role owner || role_eq role admin then with_secrets view else without_secrets view

-- `redactBoundary`
unfoldable pub redact_boundary : Host → BoundaryResult → BoundaryResult
redact_boundary host outcome = record outcome {
  stdout = host.redact outcome.stdout;
  stderr = host.redact outcome.stderr;
}

-- `permissions.filter((permission) => hasPermission(user, permission))`
unfoldable pub allowed : AdminRole → UserStatus → List Permission → List Permission
allowed role status [] = []
allowed role status (permission ∷ rest) =
    let more = allowed role status rest in
    if has_permission role status permission then permission ∷ more else more

-- `permissionsFor`; its list is that of the shared package.
unfoldable pub permissions_for : AdminRole → UserStatus → List Permission
unfolding allowed permissions
permissions_for role status = allowed role status permissions
