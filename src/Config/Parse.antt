-- ===== src/Config/Parse.antt =====
-- packages/config/src/index.ts: the parsers of single settings; `requireSessionSecret` of
-- packages/security/src/index.ts.
use cool_tunnel_server.Config.{AppEnv, production, development, test}
use cool_tunnel_server.Base.Tables.{any}
use cool_tunnel_server.Security.Platform.{Platform}
use cool_tunnel_server.Security.Texts.{
  is_alnum, every, trim, is_digit, between, split_on, starts_with, strip_prefix,
}
use cool_tunnel_server.Base.Texts.{Text, is_empty, length, codes, text_eq}
use cool_tunnel_server.Base.{
  ℕ, Bool, true, false, not, ◌&&◌, ◌||◌, Option, some, none, List, [], ◌∷◌, map, ltb, ◌==◌,
  if◌then◌else◌,
}
use cool_tunnel_server.Base.Results.{Result, ok, throw, ◌>>=◌, plain}
use cool_tunnel_server.Security.Json.{str}

-- `EnvMap`; `none` is undefined.
abbrev pub EnvMap : Type 0
EnvMap = Text → Option Text

-- `envValue(env, key)`
unfoldable pub env_value : EnvMap → Text → Text
env_value env key = elim (env key) [ none ↦ [] | some value ↦ value ]

-- `a || b`
unfoldable pub or_default : Text → Text → Text
or_default value fallback = if is_empty value then fallback else value

abbrev pub one_of : List Text → Text → Bool
one_of words value = any (text_eq value) words

-- `[A-Za-z0-9_-]`
abbrev pub is_key_char : ℕ → Bool
is_key_char c = is_alnum c || c == b'_' || c == b'-'

-- `/^[A-Za-z0-9_-]{43}$/`
unfoldable pub is_reality_key : Text → Bool
unfolding every
is_reality_key key = every is_key_char key && length key == 43

unfoldable pub validate_reality_key : Text → Result Text
unfolding is_reality_key trim
validate_reality_key value =
    let key = trim value in if is_reality_key key then ok key else throw plain

abbrev is_hex : ℕ → Bool
is_hex c = is_digit c || between b'a' b'f' c || between b'A' b'F' c

-- `part === "" || /^[0-9a-fA-F]{2,16}$/.test(part)`
unfoldable pub is_short_id : Text → Bool
unfolding every
is_short_id part = is_empty part || (every is_hex part && between 2 16 (length part))

unfoldable pub all_short_ids : List Text → Bool
unfolding is_short_id
all_short_ids [] = true
all_short_ids (part ∷ parts) = is_short_id part && all_short_ids parts

-- `validateShortIds`
unfoldable pub validate_short_ids : Text → Result (List Text)
unfolding all_short_ids trim split_on
validate_short_ids value =
    let (first, rest) = split_on (λ c. c == b',') value in
    let parts = map trim (first ∷ rest) in
    if is_empty (trim value)
    then ok ([] ∷ [])
    else if ltb 16 (length parts) || not (all_short_ids parts)
    then throw plain
    else ok parts

-- `a ?? b`
abbrev pub or_else : Option Text → Text → Text
or_else none fallback = fallback
or_else (some value) fallback = value

-- `requireSessionSecret`
unfoldable pub require_session_secret : EnvMap → Result Text
require_session_secret env =
    let secret =
      or_else (env (codes "BETTER_AUTH_SECRET"))
        (or_else (env (codes "AUTH_SECRET")) (env_value env (codes "CT_ADMIN_SESSION_SECRET"))) in
    if ltb (length secret) 32 then throw plain else ok secret

module _ (platform : Platform) where
  -- `parseBool`
  unfoldable pub parse_bool : Text → Bool → Result Bool
  unfolding trim any
  parse_bool value fallback =
      let normalized = platform.lower (trim value) in
      if is_empty (trim value)
      then ok fallback
      else if one_of (codes "1" ∷ codes "true" ∷ codes "yes" ∷ codes "on" ∷ []) normalized
      then ok true
      else if one_of (codes "0" ∷ codes "false" ∷ codes "no" ∷ codes "off" ∷ []) normalized
      then ok false
      else throw plain

  -- `Number(text)`, where it is a natural number in the bounds.
  unfoldable pub bounded_number : (min max : ℕ) → Text → Result ℕ
  bounded_number min max text = do
    found ← platform.to_natural (str text)
    elim found [
      | none ↦ throw plain
      | some n ↦ if ltb n min || ltb max n then throw plain else ok n
    ]

  -- `parsePort`
  unfoldable pub parse_port : Text → Result ℕ
  unfolding bounded_number trim
  parse_port value = bounded_number 1 65535 (or_default (trim value) (codes "9000"))

  -- `parseAppEnv`
  unfoldable pub parse_app_env : Text → Result AppEnv
  unfolding trim
  parse_app_env value =
      let env = platform.lower (trim (or_default value (codes "production"))) in
      if text_eq env (codes "production")
      then ok production
      else if text_eq env (codes "development")
      then ok development
      else if text_eq env (codes "test")
      then ok test
      else throw plain

  -- `parseRetentionDays`
  unfoldable pub parse_retention_days : Text → Result ℕ
  unfolding trim
  parse_retention_days raw = if is_empty (trim raw) then ok 90 else (do
    found ← platform.to_natural (str raw)
    elim found [ none ↦ throw plain | some n ↦ ok n ])

  -- `defaultAdminDbPath`
  unfoldable pub default_admin_db_path : EnvMap → Text
  unfolding trim starts_with strip_prefix
  default_admin_db_path env =
      let db_url = env_value env (codes "DATABASE_URL") in
      let app_env =
        platform.lower
          (trim (or_else (env (codes "CT_ADMIN_ENV")) (env_value env (codes "APP_ENV")))) in
      if starts_with (codes "sqlite://") db_url
      then strip_prefix (codes "sqlite://") db_url
      else or_default (env_value env (codes "CT_ADMIN_DB_PATH")) (
          if text_eq app_env (codes "test")
          then codes "/tmp/cool-tunnel-admin-test.sqlite"
          else codes "./data/admin/admin.sqlite")
