-- ===== src/Base/Tables.antt =====
-- SQL tables as lists of rows in insertion order: the statements over them, and how they count.
use Prim.Native.Nat.{ℕ, suc, ◌+◌, ◌≤◌, ◌<◌}
use mathlib.Core.Path.{◌≡◌, refl}
use mathlib.Core.Bool.{Bool, true, false, not, ◌&&◌, ◌||◌}
use mathlib.Core.Option.{Option, none, some}
use mathlib.Core.List.{List, [], ◌∷◌, ◌++◌}
use native.Mathlib.Omega.{arith}
use cool_tunnel_server.Base.Tests.{if◌then◌else◌}

module _ {ℓ} {A : Type ℓ} where
  unfoldable pub any : (A → Bool) → List A → Bool
  any p [] = false
  any p (x ∷ xs) = p x || any p xs

  unfoldable pub count : (A → Bool) → List A → ℕ
  count p [] = 0
  count p (x ∷ xs) = if p x then suc (count p xs) else count p xs

  -- `SELECT * … WHERE p`, the first row.
  unfoldable pub find? : (A → Bool) → List A → Option A
  find? p [] = none
  find? p (x ∷ xs) = if p x then some x else find? p xs

  -- `UPDATE … SET f WHERE q`
  unfoldable pub update_where : (A → Bool) → (A → A) → List A → List A
  update_where q f [] = []
  update_where q f (x ∷ xs) = (if q x then f x else x) ∷ update_where q f xs

  -- `DELETE … WHERE q`
  unfoldable pub delete_where : (A → Bool) → List A → List A
  delete_where q [] = []
  delete_where q (x ∷ xs) = if q x then delete_where q xs else x ∷ delete_where q xs

  -- `INSERT`
  abbrev pub insert_row : A → List A → List A
  insert_row x xs = xs ++ x ∷ []

  -- `ORDER BY`, stable.
  unfoldable pub insert_sorted : (A → A → Bool) → A → List A → List A
  insert_sorted before x [] = x ∷ []
  insert_sorted before x (y ∷ ys) = if before y x then y ∷ insert_sorted before x ys else x ∷ y ∷ ys

  unfoldable pub order_by : (A → A → Bool) → List A → List A
  unfolding insert_sorted
  order_by before [] = []
  order_by before (x ∷ xs) = insert_sorted before x (order_by before xs)

  pub count-insert_row :
      (p : A → Bool) (x : A) (xs : List A)
      → count p (insert_row x xs) ≡ count p xs + (if p x then 1 else 0)
  unfolding count
  count-insert_row p x [] = ground arith
  count-insert_row p x (y ∷ xs) = ground (arith, count-insert_row p x xs)

  pub count_of_not_any : (p : A → Bool) (xs : List A) → any p xs ≡ false → count p xs ≡ 0
  unfolding any count
  count_of_not_any p [] h = refl
  count_of_not_any p (x ∷ xs) h = ground (arith, count_of_not_any p xs)

  pub find?-some :
      (p : A → Bool) (xs : List A) (x : A) → find? p xs ≡ some x → (p x ≡ true) × (0 < count p xs)
  unfolding find? count
  find?-some p [] x h = cc
  find?-some p (y ∷ xs) x h = ground (arith, find?-some p xs x)

  module _ (p q : A → Bool) (f : A → A) where
    pub count-update_keeps :
        ((x : A) → q x ≡ true → p x ≡ true → p (f x) ≡ true)
        → (xs : List A) → count p xs ≤ count p (update_where q f xs)
    unfolding count update_where
    count-update_keeps h [] = omega arith
    count-update_keeps h (x ∷ xs) = ground (arith, h x, count-update_keeps h xs)

    pub count-update_le :
        ((x : A) → q x ≡ true → p (f x) ≡ true → p x ≡ true)
        → (xs : List A) → count p (update_where q f xs) ≤ count p xs
    unfolding count update_where
    count-update_le h [] = omega arith
    count-update_le h (x ∷ xs) = ground (arith, h x, count-update_le h xs)

    -- Rows that count after an update were touched, or counted before.
    pub count-update_bound :
        (xs : List A)
        → count p (update_where q f xs) ≤ count q xs + count (λ x. not (q x) && p x) xs
    unfolding count update_where
    count-update_bound [] = omega arith
    count-update_bound (x ∷ xs) = ground (arith, count-update_bound xs)

    -- An update takes away at most the rows that it touches.
    pub count-update_loss :
        (xs : List A) → count p xs ≤ count p (update_where q f xs) + count (λ x. q x && p x) xs
    unfolding count update_where
    count-update_loss [] = omega arith
    count-update_loss (x ∷ xs) = ground (arith, count-update_loss xs)

  module _ (p q : A → Bool) where
    pub count-and_le : (xs : List A) → count (λ x. q x && p x) xs ≤ count q xs
    unfolding count
    count-and_le [] = omega arith
    count-and_le (x ∷ xs) = ground (arith, count-and_le xs)

    pub count-delete_le : (xs : List A) → count p (delete_where q xs) ≤ count p xs
    unfolding count delete_where
    count-delete_le [] = omega arith
    count-delete_le (x ∷ xs) = ground (arith, count-delete_le xs)

    pub count-delete_loss :
        (xs : List A) → count p xs ≤ count p (delete_where q xs) + count (λ x. q x && p x) xs
    unfolding count delete_where
    count-delete_loss [] = omega arith
    count-delete_loss (x ∷ xs) = ground (arith, count-delete_loss xs)

    -- Where one row at most meets `q`, and the row found does not meet `p`, none meets both.
    pub count-and_of_find :
        (xs : List A) (x : A)
        → find? q xs ≡ some x
        → p x ≡ false
        → count q xs ≤ 1
        → count (λ y. q y && p y) xs ≡ 0
    unfolding count find?
    count-and_of_find [] x e h u = refl
    count-and_of_find (y ∷ xs) x e h u = ground (arith, count-and_of_find xs x, count-and_le xs)

    pub count-and_disjoint :
        ((x : A) → q x ≡ true → p x ≡ false) → (xs : List A) → count (λ x. q x && p x) xs ≡ 0
    unfolding count
    count-and_disjoint h [] = refl
    count-and_disjoint h (x ∷ xs) = ground (arith, h x, count-and_disjoint h xs)

    pub count-and_of_found :
        (xs : List A) (x : A) → find? q xs ≡ some x → p x ≡ true → 0 < count (λ y. q y && p y) xs
    unfolding count find?
    count-and_of_found [] x e h = cc
    count-and_of_found (y ∷ xs) x e h = ground (arith, count-and_of_found xs x)

  pub count-delete_self : (q : A → Bool) (xs : List A) → count q (delete_where q xs) ≡ 0
  unfolding count delete_where
  count-delete_self q [] = refl
  count-delete_self q (x ∷ xs) = ground (arith, count-delete_self q xs)
