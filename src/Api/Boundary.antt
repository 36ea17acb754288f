-- ===== src/Api/Boundary.antt =====
-- apps/api/src/core-boundary.ts: the operational actions. Commands, files and the Docker proxy are
-- parameters.
use cool_tunnel_server.Store.Status.{is_listed, read_accounts}
use cool_tunnel_server.Store.Proxy.{find_proxy}
use cool_tunnel_server.Store.Monad.{◌>>=◌, Host, Env, M, read}
use cool_tunnel_server.Store.Db.{Db, ProxyRow}
use cool_tunnel_server.Api.Subscription.{has_vless}
use cool_tunnel_server.Store.ProxyInput.{ProxyView}
use cool_tunnel_server.Base.Texts.{Text, codes, is_empty, text_eq}
use cool_tunnel_server.Base.{
  ℕ, Bool, not, ◌&&◌, ◌||◌, Option, some, none, List, [], ◌∷◌, ◌++◌, ltb, if◌then◌else◌,
}
use cool_tunnel_server.Base.Results.{Result, ok}

-- `code` is the exit code of a process, or one of the codes that the API makes up.
pub record BoundaryResult : Type 0 where
  pub is_ok : Bool
  pub code : ℕ
  pub stdout : Text
  pub stderr : Text

pub record RenderAccount : Type 0 where
  pub username : Text
  pub uuid : Text

-- The file that `singbox-core render-server --input` reads, without the fields that are constants.
pub record RenderInput : Type 0 where
  pub domain : Text
  pub reality_private_key : Text
  pub reality_short_ids : List Text
  pub reality_dest_host : Text
  pub accounts : List RenderAccount

-- The answer of the Docker proxy to a restart: a status with whether it is a success, or an error's
-- message.
pub data Restarted : Type 0 where
  answered : (is_ok : Bool) → (status : ℕ) → Restarted
  failed : (message : Text) → Restarted

-- What the actions reach outside the process.
pub record Outside : Type 0 where
  -- Write the input, run `singbox-core render-server` to the output path, remove the input.
  pub run_render : (output : Text) → RenderInput → Result BoundaryResult
  -- `CT_DOCKER_API`, without its trailing slashes.
  pub docker_api : Text
  pub restart : (url : Text) → Restarted
  pub read_template : (path : Text) → Result Text
  -- `none` where the file cannot be read.
  pub read_output : (path : Text) → Option Text
  pub write_output : (path body : Text) → Result (Unit {0})
  pub sha256_hex : Text → Text
  -- The clock of the two `new Date()` of `renderCaddyfile`.
  pub rendered_at : ℕ
  pub updated_at : ℕ

abbrev pub quiet : Bool → ℕ → Text → Text → BoundaryResult
quiet is_ok code stdout stderr = record {
  is_ok = is_ok;
  code = code;
  stdout = stdout;
  stderr = stderr;
}

-- `secret.previousUuid && secret.previousUuid !== secret.uuid && graceUntil !== null && …`, with the
-- username of the listed account and the UUIDs of the row that is read again.
unfoldable pub grace_account : ℕ → ProxyView → ProxyRow → List RenderAccount
grace_account now account row = elim row.previous_uuid [
  | none ↦ []
  | some previous ↦ elim account.previous_uuid_valid_until [
    | none ↦ []
    | some until ↦
        if not (is_empty previous) && not (text_eq previous row.uuid) && ltb now until
        then record { username = account.username ++ codes "-prev"; uuid = previous } ∷ []
        else []
  ]
]

-- One round of the loop.
unfoldable pub render_accounts_of : ℕ → Db → ProxyView → List RenderAccount
unfolding grace_account has_vless
render_accounts_of now db account =
    if not (is_listed account.status) || not (has_vless account.enabled_protocols)
    then []
    else elim (find_proxy account.id db) [
      | none ↦ []
      | some row ↦
          if is_empty row.uuid
          then []
          else record { username = account.username; uuid = row.uuid }
            ∷ grace_account now account row
    ]

unfoldable pub render_accounts_from : ℕ → Db → List ProxyView → List RenderAccount
unfolding render_accounts_of
render_accounts_from now db [] = []
render_accounts_from now db (account ∷ accounts) =
    render_accounts_of now db account ++ render_accounts_from now db accounts

abbrev pub placeholder : RenderAccount
placeholder = record {
  username = codes "__no_active_accounts__";
  uuid = codes "00000000-0000-0000-0000-000000000000";
}

-- sing-box rejects an empty list of users.
abbrev pub or_placeholder : List RenderAccount → List RenderAccount
or_placeholder [] = placeholder ∷ []
or_placeholder (account ∷ accounts) = account ∷ accounts

module _ (host : Host) where
  -- `buildServerRenderAccounts`; the loop reads each account again.
  unfoldable pub build_server_render_accounts : Env → M (List RenderAccount)
  unfolding render_accounts_from
  build_server_render_accounts env = do
    accounts ← read_accounts host env
    read (λ db. ok (or_placeholder (render_accounts_from env.clock db accounts)))
