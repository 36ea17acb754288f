-- ===== src/Security/Texts.antt =====
-- The string methods and character classes that packages/security/src/index.ts uses.
use cool_tunnel_server.Base.{
  ℕ, Bool, true, false, ◌&&◌, ◌||◌, List, [], ◌∷◌, leb, ◌==◌, if◌then◌else◌,
}
use cool_tunnel_server.Base.Texts.{Text, text_eq, is_empty}

abbrev pub between : ℕ → ℕ → ℕ → Bool
between lo hi c = leb lo c && leb c hi

-- White space of `trim` and of `\s`.
unfoldable pub is_space : ℕ → Bool
is_space c =
    between 9 13 c
    || c == 32
    || c == 160
    || c == 0x1680
    || between 0x2000 0x200a c
    || c == 0x2028
    || c == 0x2029
    || c == 0x202f
    || c == 0x205f
    || c == 0x3000
    || c == 0xfeff

unfoldable pub trim_start : Text → Text
trim_start [] = []
trim_start (c ∷ s) = if is_space c then trim_start s else c ∷ s

unfoldable pub trim_end : Text → Text
trim_end [] = []
trim_end (c ∷ s) = let rest = trim_end s in if is_space c && is_empty rest then [] else c ∷ rest

-- `String.prototype.trim`
unfoldable pub trim : Text → Text
unfolding trim_start trim_end is_space
trim s = trim_end (trim_start s)

unfoldable pub every : (ℕ → Bool) → Text → Bool
every p [] = true
every p (c ∷ s) = p c && every p s

-- `split` on one character; there is always a first part.
unfoldable pub split_on : (ℕ → Bool) → Text → Text × List Text
split_on p [] = ([], [])
split_on p (c ∷ s) =
    let (first, rest) = split_on p s in if p c then ([], first ∷ rest) else (c ∷ first, rest)

unfoldable pub starts_with : Text → Text → Bool
starts_with [] s = true
starts_with (c ∷ p) [] = false
starts_with (c ∷ p) (d ∷ s) = c == d && starts_with p s

-- The text behind a prefix, or the whole text.
unfoldable pub strip_prefix : Text → Text → Text
strip_prefix [] s = s
strip_prefix (c ∷ p) [] = []
strip_prefix (c ∷ p) (d ∷ s) = strip_prefix p s

unfoldable pub includes_text : Text → Text → Bool
unfolding starts_with
includes_text part [] = is_empty part
includes_text part (c ∷ s) = starts_with part (c ∷ s) || includes_text part s

unfoldable pub ends_with : Text → Text → Bool
unfolding text_eq
ends_with suffix [] = is_empty suffix
ends_with suffix (c ∷ s) = text_eq suffix (c ∷ s) || ends_with suffix s

abbrev pub is_digit : ℕ → Bool
is_digit = between b'0' b'9'

abbrev pub is_lower : ℕ → Bool
is_lower = between b'a' b'z'

abbrev pub is_upper : ℕ → Bool
is_upper = between b'A' b'Z'

-- `[A-Za-z0-9]`
abbrev pub is_alnum : ℕ → Bool
is_alnum c = is_digit c || is_lower c || is_upper c

-- `[A-Za-z0-9_-]`
abbrev pub is_url_char : ℕ → Bool
is_url_char c = is_alnum c || c == b'_' || c == b'-'

-- `[0-9a-f]`
abbrev pub is_lower_hex : ℕ → Bool
is_lower_hex c = is_digit c || between b'a' b'f' c

-- `[0-9a-fA-F]`
abbrev pub is_hex : ℕ → Bool
is_hex c = is_lower_hex c || between b'A' b'F' c
