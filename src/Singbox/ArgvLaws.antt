-- ===== src/Singbox/ArgvLaws.antt =====
-- What the parsers of the arguments of singbox-core guarantee.
use cool_tunnel_server.Base.Texts.{Text}
use cool_tunnel_server.Base.{
  ℕ, ◌≤◌, ◌≡◌, refl, sym, ◌∙◌, subst, ◌⊎◌, inl, inr, Bool, true, false, Option, some, none, List,
  [], ◌∷◌, arith, if◌then◌else◌, Bool-cases,
}
use cool_tunnel_server.Base.Results.{ok-injective, Result, ok, Result-cases}
use cool_tunnel_server.Singbox.Argv.{
  Flag, takes, sets, unknown, parse_flags, SuperviseArgs, integer_value, supervise_flag,
  max_safe_integer, exceeds, lacks_value, healthz_port_flag, boot_timeout_flag, config_flag,
  parse_supervise_args, singbox_bin_flag, supervise_defaults, healthz_host_flag, help_flag,
}

module _ {A : Type 0} (P : A → Type 0) where
  -- What the flag does keeps the predicate.
  Keeps : Flag A → Type 0
  Keeps (takes f) = (v : Text) (args args' : A) → f v args ≡ ok args' → P args → P args'
  Keeps (sets f) = (args : A) → P args → P (f args)
  Keeps unknown = Unit {0}

  if-Keeps : (b : Bool) (x y : Flag A) → Keeps x → Keeps y → Keeps (if b then x else y)
  if-Keeps true x y h k = h
  if-Keeps false x y h k = k

  Flag-cases :
      (x : Flag A)
      → ((f : Text → A → Result A) × (x ≡ takes f)) ⊎ ((f : A → A) × (x ≡ sets f)) ⊎ (x ≡ unknown)
  Flag-cases (takes f) = inl (f, refl)
  Flag-cases (sets f) = inr (inl (f, refl))
  Flag-cases unknown = inr (inr refl)

  module _ (flag : Text → Flag A) (keeps : (a : Text) → Keeps (flag a)) where
    -- Every flag keeps the predicate, so a parse that succeeds does.
    parse_flags-Keeps :
        (argv : List Text) (args args' : A)
        → parse_flags flag argv args ≡ ok args'
        → P args
        → P args'
    unfolding parse_flags Keeps
    parse_flags-Keeps [] args args' e p = subst P (ok-injective args args' e) p
    parse_flags-Keeps (a ∷ []) args args' e p = elim (Flag-cases (flag a)) [
      | inl (f, k) ↦ absurd (ground (arith, k))
      | inr (inl (f, k)) ↦
          let step : parse_flags flag (a ∷ []) args ≡ ok (f args) = ground (arith, k) in
          let kept : Keeps (sets f) = subst Keeps k (keeps a) in
          subst P (ok-injective (f args) args' (sym step ∙ e)) (kept args p)
      | inr (inr k) ↦ absurd (ground (arith, k))
    ]
    parse_flags-Keeps (a ∷ value ∷ more) args args' e p = elim (Flag-cases (flag a)) [
      | inl (f, k) ↦ elim (Bool-cases (lacks_value (value ∷ more))) [
        | inl l ↦ absurd (ground (arith, k, l))
        | inr l ↦ elim (Result-cases (f value args)) [
          | inr (fault, m) ↦ absurd (ground (arith, k, l, m))
          | inl (next, m) ↦
              let step : parse_flags flag (a ∷ value ∷ more) args ≡ parse_flags flag more next =
                ground (arith, k, l, m) in
              let kept : Keeps (takes f) = subst Keeps k (keeps a) in
              parse_flags-Keeps more next args' (sym step ∙ e) (kept value args next m p)
        ]
      ]
      | inr (inl (f, k)) ↦
          let step : parse_flags flag (a ∷ value ∷ more) args
              ≡ parse_flags flag (value ∷ more) (f args) =
            ground (arith, k) in
          let kept : Keeps (sets f) = subst Keeps k (keeps a) in
          parse_flags-Keeps (value ∷ more) (f args) args' (sym step ∙ e) (kept args p)
      | inr (inr k) ↦ absurd (ground (arith, k))
    ]

-- The numbers of the arguments of `supervise`.
abbrev pub InRange : SuperviseArgs → Type 0
InRange args =
    (1 ≤ args.healthz_port)
    × (args.healthz_port ≤ 65535)
    × (1 ≤ args.boot_timeout_ms)
    × (args.boot_timeout_ms ≤ max_safe_integer)

integer_value-bounds :
    (min : ℕ) (max : Option ℕ) (raw : Text) (value : ℕ)
    → integer_value min max raw ≡ ok value
    → (min ≤ value) × (value ≤ max_safe_integer) × (exceeds value max ≡ false)
unfolding integer_value
integer_value-bounds min max raw value e = ground arith

config-Keeps : Keeps InRange config_flag
unfolding Keeps
config-Keeps v args args' e p = ground (arith, e, p)

bin-Keeps : Keeps InRange singbox_bin_flag
unfolding Keeps
bin-Keeps v args args' e p = ground (arith, e, p)

host-Keeps : Keeps InRange healthz_host_flag
unfolding Keeps
host-Keeps v args args' e p = ground (arith, e, p)

help-Keeps : Keeps InRange help_flag
unfolding Keeps
help-Keeps args p = p

port-Keeps : Keeps InRange healthz_port_flag
unfolding Keeps
port-Keeps v args args' e p = elim (Result-cases (integer_value 1 (some 65535) v)) [
  | inr (fault, k) ↦ absurd (ground (arith, k))
  | inl (port, k) ↦ ground (arith, k, integer_value-bounds 1 (some 65535) v port k)
]

timeout-Keeps : Keeps InRange boot_timeout_flag
unfolding Keeps
timeout-Keeps v args args' e p = elim (Result-cases (integer_value 1 none v)) [
  | inr (fault, k) ↦ absurd (ground (arith, k))
  | inl (timeout, k) ↦ ground (arith, k, integer_value-bounds 1 none v timeout k)
]

supervise_flag-Keeps : (a : Text) → Keeps InRange (supervise_flag a)
unfolding Keeps supervise_flag
supervise_flag-Keeps a =
    search
      (if-Keeps, config-Keeps, bin-Keeps, host-Keeps, port-Keeps, timeout-Keeps, help-Keeps, tt)
      depth 10

-- Arguments that `supervise` accepts have a port from 1 to 65535 and a boot timeout from 1 to the
-- greatest safe integer, whatever flags are given and however often.
pub parse_supervise_args-InRange :
    (argv : List Text) (args : SuperviseArgs) → parse_supervise_args argv ≡ ok args → InRange args
unfolding parse_supervise_args
parse_supervise_args-InRange argv args e =
    parse_flags-Keeps InRange supervise_flag supervise_flag-Keeps argv supervise_defaults args e
      (omega arith, omega arith, omega arith, omega arith)
