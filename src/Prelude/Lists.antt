-- ===== src/Prelude/Lists.antt =====
-- Lists measured by native numbers, and the loops over slices that the program writes.
use Prim.Native.Nat.{ℕ, zero, suc, ◌+◌, ◌≤◌}
use mathlib.Core.Path.{◌≡◌, refl}
use mathlib.Core.Logic.{◌↔◌}
use mathlib.Core.Bool.{Bool, true, false, ◌||◌}
use mathlib.Core.Option.{Option, none, some}
use mathlib.Core.List.{List, [], ◌∷◌, ◌++◌}
use native.Mathlib.Omega.{arith}
use Prim.Native.String.{String}
use text.Mathlib.Text.{◌==◌ as str_eq}
use cluster_agent.Prelude.Tests.{if◌then◌else◌}

module _ {ℓ} {A : Type ℓ} where
  abbrev pub length : List A → ℕ
  length [] = 0
  length (x ∷ xs) = suc (length xs)

  abbrev pub is_empty : List A → Bool
  is_empty [] = true
  is_empty (x ∷ xs) = false

  abbrev pub take : ℕ → List A → List A
  take zero xs = []
  take (suc n) [] = []
  take (suc n) (x ∷ xs) = x ∷ take n xs

  abbrev pub drop : ℕ → List A → List A
  drop zero xs = xs
  drop (suc n) [] = []
  drop (suc n) (x ∷ xs) = drop n xs

  -- A loop that keeps the items for which the test holds.
  unfoldable pub keep : (A → Bool) → List A → List A
  keep p [] = []
  keep p (x ∷ xs) = let rest = keep p xs in if p x then x ∷ rest else rest

  -- How many items satisfy the test.
  unfoldable pub count_where : (A → Bool) → List A → ℕ
  count_where p [] = 0
  count_where p (x ∷ xs) = let rest = count_where p xs in if p x then suc rest else rest

  -- A loop that returns true at the first item for which the test holds.
  unfoldable pub exists : (A → Bool) → List A → Bool
  exists p [] = false
  exists p (x ∷ xs) = p x || exists p xs

  -- A loop that returns the first item for which the test holds.
  unfoldable pub find_first : (A → Bool) → List A → Option A
  find_first p [] = none
  find_first p (x ∷ xs) = if p x then some x else find_first p xs

  -- Every item satisfies the predicate.
  abbrev pub All {κ} : (A → Type κ) → List A → Type κ
  All P [] = Unit
  All P (x ∷ xs) = P x × All P xs

  pub length-append : (xs ys : List A) → length (xs ++ ys) ≡ length xs + length ys
  length-append [] ys = omega arith
  length-append (x ∷ xs) ys = omega (arith, length-append xs ys)

module _ {ℓ} {A : Type ℓ} (p : A → Bool) where
  pub count_where-le-length : (xs : List A) → count_where p xs ≤ length xs
  unfolding count_where
  count_where-le-length [] = omega arith
  count_where-le-length (x ∷ xs) = ground (arith, count_where-le-length xs)

  pub count_where-append :
      (xs ys : List A) → count_where p (xs ++ ys) ≡ count_where p xs + count_where p ys
  unfolding count_where
  count_where-append [] ys = omega arith
  count_where-append (x ∷ xs) ys = ground (arith, count_where-append xs ys)

  pub length-keep : (xs : List A) → length (keep p xs) ≡ count_where p xs
  unfolding keep count_where
  length-keep [] = refl
  length-keep (x ∷ xs) = ground (arith, length-keep xs)

  pub All-keep : (xs : List A) → All (λ x. p x ≡ true) (keep p xs)
  unfolding keep
  All-keep [] = tt
  All-keep (x ∷ xs) = ground (arith, All-keep xs)

  pub All-of_count_where : (xs : List A) → count_where p xs ≡ length xs → All (λ x. p x ≡ true) xs
  unfolding count_where
  All-of_count_where [] h = tt
  All-of_count_where (x ∷ xs) h = ground (arith, count_where-le-length xs, All-of_count_where xs)

  pub count_where_of_All : (xs : List A) → All (λ x. p x ≡ true) xs → count_where p xs ≡ length xs
  unfolding count_where
  count_where_of_All [] h = refl
  count_where_of_All (x ∷ xs) h = ground (arith, count_where_of_All xs)

-- No item of a list counts.
pub count_where_zero {ℓ} :
    {A : Type ℓ} (p : A → Bool) (xs : List A) → (count_where p xs ≡ 0) ↔ All (λ x. p x ≡ false) xs
unfolding count_where
count_where_zero p [] = (λ h. tt, λ h. refl)
count_where_zero p (x ∷ xs) = ground (arith, count_where_zero p xs)

-- slices.Contains on strings.
unfoldable pub contains : List String → String → Bool
contains [] s = false
contains (x ∷ xs) s = str_eq x s || contains xs s
