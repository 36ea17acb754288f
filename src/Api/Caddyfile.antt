-- ===== src/Api/Caddyfile.antt =====
-- apps/api/src/core-boundary.ts: `renderTemplate` and what it is built on.
use cool_tunnel_server.Security.Platform.{Platform}
use cool_tunnel_server.Base.Texts.{Text, codes, length, is_empty}
use cool_tunnel_server.Security.Texts.{starts_with, every, strip_prefix}
use cool_tunnel_server.Base.{
  ℕ, zero, suc, Bool, not, ◌||◌, Option, some, none, List, [], ◌∷◌, ◌++◌, ◌==◌, if◌then◌else◌,
}
use cool_tunnel_server.Base.Results.{Result, ok, ◌>>◌, throw_if, plain}

-- The text before the first occurrence of the marker, and the text behind it.
unfoldable pub break_at : Text → Text → Option (Text × Text)
unfolding starts_with strip_prefix
break_at marker [] = none
break_at marker (c ∷ s) =
    let later = break_at marker s in
    if starts_with marker (c ∷ s)
    then some ([], strip_prefix marker (c ∷ s))
    else elim later [ none ↦ none | some (before, behind) ↦ some (c ∷ before, behind) ]

abbrev open_marker : Text → Text
open_marker key = codes "{{ if ." ++ (key ++ codes " }}\n")

abbrev close_marker : Text
close_marker = codes "{{ end }}\n"

-- `body.replace(block, on ? "$1" : "")`, on fuel for the number of blocks.
unfoldable pub replace_blocks : (fuel : ℕ) → Text → Bool → Text → Text
unfolding break_at
replace_blocks zero key on body = body
replace_blocks (suc fuel) key on body = elim (break_at (open_marker key) body) [
  | none ↦ body
  | some (before, inner) ↦ elim (break_at close_marker inner) [
    | none ↦ body
    | some (kept, behind) ↦
        before ++ ((if on then kept else []) ++ replace_blocks fuel key on behind)
  ]
]

-- `applyConditional`; a block is longer than its markers, so the length of the body is fuel enough.
unfoldable pub apply_conditional : Text → Text → Bool → Text
unfolding replace_blocks
apply_conditional body key on = replace_blocks (length body) key on body

-- `/[\r\n{}"]/`
abbrev pub breaks_caddyfile : ℕ → Bool
breaks_caddyfile c = c == 13 || c == 10 || c == b'{' || c == b'}' || c == b'"'

-- `caddyfileValidate`
unfoldable pub caddyfile_validate : Text → Result (Unit {0})
unfolding every
caddyfile_validate value =
    throw_if (is_empty value || not (every (λ c. not (breaks_caddyfile c)) value)) plain

-- The loop over the flags.
unfoldable pub apply_flags : List (Text × Bool) → Text → Text
unfolding apply_conditional
apply_flags [] body = body
apply_flags ((key, on) ∷ flags) body = apply_flags flags (apply_conditional body key on)

-- The loop over the bindings.
unfoldable pub bind_all : Platform → List (Text × Text) → Text → Result Text
unfolding caddyfile_validate
bind_all platform [] body = ok body
bind_all platform ((key, value) ∷ bindings) body = do
  caddyfile_validate value
  bind_all platform bindings
      (platform.replace_all (codes "{{ ." ++ (key ++ codes " }}")) value body)

unfoldable pub render_template :
    Platform → Text → List (Text × Text) → List (Text × Bool) → Result Text
unfolding apply_flags bind_all
render_template platform template bindings flags =
    bind_all platform bindings (apply_flags flags template)
