-- ===== src/Security/Validate.antt =====
-- packages/security/src/index.ts: the validators and the normalising functions. A regular
-- expression is written as the scan that decides it.
use cool_tunnel_server.Base.{
  ℕ, zero, suc, Bool, true, false, not, ◌&&◌, ◌||◌, Option, some, none, List, [], ◌∷◌, leb, ◌==◌,
  if◌then◌else◌,
}
use cool_tunnel_server.Base.Texts.{Text, text_eq, is_empty, length, codes}
use cool_tunnel_server.Base.Results.{Result, ok, throw, plain}
use cool_tunnel_server.Security.Platform.{Platform}
use cool_tunnel_server.Security.Texts.{
  is_space, trim, every, split_on, starts_with, strip_prefix, includes_text, ends_with, is_digit,
  is_lower, is_alnum, is_url_char, is_lower_hex, is_hex, between,
}

-- `Buffer.from(a, "utf8")` puts U+FFFD for a surrogate that stands alone.
abbrev is_high_surrogate : ℕ → Bool
is_high_surrogate = between 0xd800 0xdbff

abbrev is_low_surrogate : ℕ → Bool
is_low_surrogate = between 0xdc00 0xdfff

unfoldable pub well_formed : Text → Text
well_formed [] = []
well_formed (c ∷ []) = (if is_high_surrogate c || is_low_surrogate c then 0xfffd else c) ∷ []
well_formed (c ∷ d ∷ s) =
    let after_pair = c ∷ d ∷ well_formed s in
    let alone = 0xfffd ∷ well_formed (d ∷ s) in
    let plain_unit = c ∷ well_formed (d ∷ s) in
    if is_high_surrogate c && is_low_surrogate d
    then after_pair
    else if is_high_surrogate c || is_low_surrogate c
    then alone
    else plain_unit

-- `constantTimeEqual`
unfoldable pub constant_time_equal : Text → Text → Bool
constant_time_equal a b = text_eq (well_formed a) (well_formed b)

-- `[^\s@]`
abbrev pub is_email_char : ℕ → Bool
is_email_char c = not (is_space c) && not (c == b'@')

-- A dot with a character behind it.
unfoldable pub dot_before_end : Text → Bool
dot_before_end [] = false
dot_before_end (c ∷ s) = (c == b'.' && not (is_empty s)) || dot_before_end s

-- `[^\s@]+\.[^\s@]+` to the end
unfoldable pub is_email_host : Text → Bool
unfolding every is_space dot_before_end
is_email_host [] = false
is_email_host (c ∷ s) = every is_email_char (c ∷ s) && dot_before_end s

-- `[^\s@]+@` and the host, with one character of the local part behind it or not.
unfoldable pub is_email_from : Bool → Text → Bool
unfolding is_email_host
is_email_from begun [] = false
is_email_from begun (c ∷ s) =
    if c == b'@' then begun && is_email_host s else is_email_char c && is_email_from true s

unfoldable pub validate_email : Text → Bool
unfolding is_email_from
validate_email value = is_email_from false value && leb (length value) 254

-- `[a-zA-Z0-9_.-]`
abbrev pub is_username_char : ℕ → Bool
is_username_char c = is_url_char c || c == b'.'

abbrev pub last_meets : (ℕ → Bool) → Text → Bool
last_meets p [] = false
last_meets p (c ∷ []) = p c
last_meets p (c ∷ d ∷ s) = last_meets p (d ∷ s)

abbrev pub first_meets : (ℕ → Bool) → Text → Bool
first_meets p [] = false
first_meets p (c ∷ s) = p c

unfoldable pub validate_username : Text → Bool
unfolding every
validate_username value =
    between 3 64 (length value)
    && first_meets is_alnum value
    && every is_username_char value
    && last_meets is_alnum value

unfoldable pub validate_name : Text → Bool
unfolding trim
validate_name value = leb 1 (length (trim value)) && leb (length (trim value)) 120

unfoldable pub validate_password : Text → Bool
validate_password value = leb 12 (length value) && leb (length value) 512

-- A scan of `n` characters of a class, and what follows.
unfoldable pub scan : (ℕ → Bool) → ℕ → Text → Option Text
scan p zero s = some s
scan p (suc n) [] = none
scan p (suc n) (c ∷ s) = if p c then scan p n s else none

infixl 5 ◌>>=◌
abbrev ◌>>=◌ : Option Text → (Text → Option Text) → Option Text
none >>= k = none
some s >>= k = k s

abbrev ends : Option Text → Bool
ends (some []) = true
ends _ = false

unfoldable pub validate_uuid : Text → Bool
unfolding scan
validate_uuid value = ends (do
  a ← scan is_hex 8 value
  b ← scan (λ c. c == b'-') 1 a
  d ← scan is_hex 4 b
  e ← scan (λ c. c == b'-') 1 d
  f ← scan (between b'1' b'5') 1 e
  g ← scan is_hex 3 f
  h ← scan (λ c. c == b'-') 1 g
  i ← scan (λ c. c == b'8' || c == b'9' || c == b'a' || c == b'b' || c == b'A' || c == b'B') 1 h
  j ← scan is_hex 3 i
  k ← scan (λ c. c == b'-') 1 j
  scan is_hex 12 k)

unfoldable pub validate_id : Text → Bool
unfolding every validate_uuid
validate_id value =
    (every is_url_char value && between 8 128 (length value))
    || validate_uuid value
    || (every is_lower_hex value && length value == 32)

-- `/^[a-z0-9](?:[a-z0-9-]{0,61}[a-z0-9])?$/`
abbrev is_label_end : ℕ → Bool
is_label_end c = is_lower c || is_digit c

unfoldable pub is_label : Text → Bool
unfolding every
is_label part =
    between 1 63 (length part)
    && first_meets is_label_end part
    && every (λ c. is_label_end c || c == b'-') part
    && last_meets is_label_end part

unfoldable pub all_labels : List Text → Bool
unfolding is_label
all_labels [] = true
all_labels (part ∷ parts) = is_label part && all_labels parts

abbrev pub split_dots : Text → List Text
split_dots s = let (first, rest) = split_on (λ c. c == b'.') s in first ∷ rest

-- `validateDomain` behind its `trim` and `toLowerCase`.
unfoldable pub is_domain : Text → Bool
unfolding all_labels includes_text starts_with ends_with split_on
is_domain domain =
    between 1 253 (length domain)
    && not (
        includes_text (codes "..") domain
        || starts_with (codes ".") domain
        || ends_with (codes ".") domain)
    && all_labels (split_dots domain)

-- `/^ctbt_[A-Za-z0-9_-]{32,128}$/`
unfoldable pub valid_bootstrap_token_shape : Text → Bool
unfolding starts_with strip_prefix every
valid_bootstrap_token_shape token =
    starts_with (codes "ctbt_") token
    && (let secret = strip_prefix (codes "ctbt_") token in
        every is_url_char secret && between 32 128 (length secret))

unfoldable pub any_dots : List Text → Bool
any_dots [] = false
any_dots (part ∷ parts) = text_eq part (codes "..") || any_dots parts

-- `validateSafePath`; the label is only text of the message.
unfoldable pub validate_safe_path : Text → Result Text
unfolding trim starts_with split_on any_dots every
validate_safe_path value =
    let path = trim value in
    let (first, rest) = split_on (λ c. c == b'/') path in
    if not (starts_with (codes "/") path)
    then throw plain
    else if not (every (λ c. not (c == 0)) path) || any_dots (first ∷ rest)
    then throw plain
    else ok path

-- `normalizeUsername`
unfoldable pub normalize_username : Text → Result Text
unfolding trim validate_username
normalize_username value =
    let username = trim value in
    if not (validate_username username) then throw plain else ok username

module _ (platform : Platform) where
  open platform use {lower, url_protocol}

  unfoldable pub normalize_email : Text → Result Text
  unfolding trim validate_email
  normalize_email value =
      let email = lower (trim value) in if not (validate_email email) then throw plain else ok email

  unfoldable pub validate_domain : Text → Bool
  unfolding trim is_domain
  validate_domain value = is_domain (lower (trim value))

  -- `.replace(/^https?:\/\//, "")`
  unfoldable pub strip_scheme : Text → Text
  unfolding starts_with strip_prefix
  strip_scheme s =
      if starts_with (codes "https://") s
      then strip_prefix (codes "https://") s
      else if starts_with (codes "http://") s
      then strip_prefix (codes "http://") s
      else s

  unfoldable pub normalize_domain : Text → Result Text
  unfolding trim strip_scheme split_on validate_domain
  normalize_domain value =
      let domain = (split_on (λ c. c == b'/' || c == b':') (strip_scheme (lower (trim value)))).0 in
      if not (validate_domain domain) then throw plain else ok domain

  -- `validateUrl(value, ["https:"])`
  unfoldable pub validate_https_url : Text → Bool
  validate_https_url value = elim (url_protocol value) [
    | none ↦ false
    | some protocol ↦ text_eq protocol (codes "https:")
  ]
