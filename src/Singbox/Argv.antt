-- ===== src/Singbox/Argv.antt =====
-- singbox-core/src/util/argv.ts, and `parseArgs` of the subcommands.
use cool_tunnel_server.Base.Tables.{any}
use cool_tunnel_server.Base.Texts.{Text, codes, is_empty, text_eq}
use cool_tunnel_server.Security.Texts.{starts_with, every, is_digit}
use cool_tunnel_server.Base.{
  ℕ, ◌+◌, ◌-◌, ◌*◌, Bool, true, false, not, ◌&&◌, ◌||◌, Option, some, none, List, [], ◌∷◌, ltb,
  if◌then◌else◌,
}
use cool_tunnel_server.Base.Results.{Result, ok, throw, ◌>>=◌, ◌>>◌, throw_if, plain}

-- `value === undefined || value === "" || value.startsWith("-")`
unfoldable pub lacks_value : List Text → Bool
unfolding starts_with
lacks_value [] = true
lacks_value (value ∷ more) = is_empty value || starts_with (codes "-") value

-- The value of a text in decimal digits.
unfoldable pub decimal_from : ℕ → Text → ℕ
decimal_from n [] = n
decimal_from n (c ∷ s) = decimal_from (n * 10 + (c - b'0')) s

-- `Number.MAX_SAFE_INTEGER`
abbrev pub max_safe_integer : ℕ
max_safe_integer = 9007199254740991

-- `opts.max !== undefined && value > opts.max`
abbrev pub exceeds : ℕ → Option ℕ → Bool
exceeds value none = false
exceeds value (some max) = ltb max value

-- `integerFlagValue`, on the value that `flagValue` gives.
unfoldable pub integer_value : (min : ℕ) (max : Option ℕ) → Text → Result ℕ
unfolding decimal_from every
integer_value min max raw = do
  throw_if (is_empty raw || not (every is_digit raw)) plain
  let value = decimal_from 0 raw
  throw_if (ltb max_safe_integer value || ltb value min || exceeds value max) plain
  ok value

-- `ParsedArgs` of supervise.ts.
pub record SuperviseArgs : Type 0 where
  pub config : Text
  pub singbox_bin : Text
  pub healthz_host : Text
  pub healthz_port : ℕ
  pub boot_timeout_ms : ℕ
  pub help : Bool

-- `DEFAULTS`
abbrev pub supervise_defaults : SuperviseArgs
supervise_defaults = record {
  config = codes "/data/config/singbox.json";
  singbox_bin = codes "/usr/local/bin/sing-box";
  healthz_host = codes "127.0.0.1";
  healthz_port = 9091;
  boot_timeout_ms = 60000;
  help = false;
}

-- `ParsedArgs` of render-server.ts and render-client.ts.
pub record RenderArgs : Type 0 where
  pub input : Option Text
  pub output : Option Text
  pub json : Bool
  pub help : Bool

-- What a flag does to the arguments, with the value behind it or without.
pub data Flag (A : Type 0) : Type 0 where
  takes : (Text → A → Result A) → Flag A
  sets : (A → A) → Flag A
  unknown : Flag A

abbrev among : List Text → Text → Bool
among names a = any (text_eq a) names

-- The loop over `argv`, by what each flag does; a flag with a value moves on by two.
unfoldable pub parse_flags : {A : Type 0} → (Text → Flag A) → List Text → A → Result A
unfolding lacks_value
parse_flags flag [] args = ok args
parse_flags flag (a ∷ []) args = elim (flag a) [
  | takes f ↦ throw plain
  | sets f ↦ ok (f args)
  | unknown ↦ throw plain
]
parse_flags flag (a ∷ value ∷ more) args = elim (flag a) [
  | takes f ↦ do
    throw_if (lacks_value (value ∷ more)) plain
    args' ← f value args
    parse_flags flag more args'
  | sets f ↦ parse_flags flag (value ∷ more) (f args)
  | unknown ↦ throw plain
]

abbrev pub config_flag : Flag SuperviseArgs
config_flag = takes (λ v args. ok (record args { config = v }))

abbrev pub singbox_bin_flag : Flag SuperviseArgs
singbox_bin_flag = takes (λ v args. ok (record args { singbox_bin = v }))

abbrev pub healthz_host_flag : Flag SuperviseArgs
healthz_host_flag = takes (λ v args. ok (record args { healthz_host = v }))

abbrev pub healthz_port_flag : Flag SuperviseArgs
healthz_port_flag =
    takes
      (λ v args. do port ← integer_value 1 (some 65535) v; ok (record args { healthz_port = port }))

abbrev pub boot_timeout_flag : Flag SuperviseArgs
boot_timeout_flag =
    takes (λ v args. do
      timeout ← integer_value 1 none v
      ok (record args { boot_timeout_ms = timeout }))

abbrev pub help_flag : Flag SuperviseArgs
help_flag = sets (λ args. record args { help = true })

unfoldable pub supervise_flag : Text → Flag SuperviseArgs
unfolding integer_value any
supervise_flag a =
    if among (codes "--config" ∷ codes "-c" ∷ []) a
    then config_flag
    else if text_eq a (codes "--singbox-bin")
    then singbox_bin_flag
    else if text_eq a (codes "--healthz-host")
    then healthz_host_flag
    else if text_eq a (codes "--healthz-port")
    then healthz_port_flag
    else if text_eq a (codes "--boot-timeout-ms")
    then boot_timeout_flag
    else if among (codes "--help" ∷ codes "-h" ∷ []) a
    then help_flag
    else unknown

unfoldable pub parse_supervise_args : List Text → Result SuperviseArgs
unfolding parse_flags supervise_flag
parse_supervise_args argv = parse_flags supervise_flag argv supervise_defaults

unfoldable pub render_flag : Text → Flag RenderArgs
unfolding any
render_flag a =
    if among (codes "--input" ∷ codes "-i" ∷ []) a
    then takes (λ v args. ok (record args { input = some v }))
    else if among (codes "--output" ∷ codes "-o" ∷ []) a
    then takes (λ v args. ok (record args { output = some v }))
    else if text_eq a (codes "--json")
    then sets (λ args. record args { json = true })
    else if among (codes "--help" ∷ codes "-h" ∷ []) a
    then sets (λ args. record args { help = true })
    else unknown

-- `!output`; a value is never empty.
abbrev is_missing : Option Text → Bool
is_missing none = true
is_missing (some s) = is_empty s

unfoldable pub parse_render_args : List Text → Result RenderArgs
unfolding parse_flags render_flag
parse_render_args argv = do
  args ←
      parse_flags render_flag argv
        (record { input = none; output = none; json = false; help = false })
  throw_if (not args.help && args.json && is_missing args.output) plain
  ok args
