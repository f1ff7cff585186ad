-- ===== src/Base/Lists.antt =====
-- Lists measured by native numbers, prefixes cut off by a test, and predicates on all elements.
use Prim.Native.Nat.{ℕ, zero, suc, ◌+◌, ◌≤◌}
use mathlib.Core.Path.{◌≡◌, refl}
use mathlib.Core.Bool.{Bool, true, false}
use mathlib.Core.Option.{Option, none, some}
use mathlib.Core.List.{List, [], ◌∷◌, ◌++◌}
use native.Mathlib.Omega.{arith}
use duckdb_aws_glue.Base.Tests.{if◌then◌else◌}

module _ {ℓ} {A : Type ℓ} where
  abbrev pub length : List A → ℕ
  length [] = 0
  length (_ ∷ xs) = suc (length xs)

  pub length-append : (xs ys : List A) → length (xs ++ ys) ≡ length xs + length ys
  length-append [] ys = omega arith
  length-append (_ ∷ xs) ys = omega (arith, length-append xs ys)

  abbrev pub is_empty : List A → Bool
  is_empty [] = true
  is_empty (_ ∷ _) = false

  unfoldable pub get_elem? : List A → ℕ → Option A
  get_elem? [] n = none
  get_elem? (x ∷ xs) zero = some x
  get_elem? (x ∷ xs) (suc n) = get_elem? xs n

  unfoldable pub take : ℕ → List A → List A
  take zero xs = []
  take (suc n) [] = []
  take (suc n) (x ∷ xs) = x ∷ take n xs

  unfoldable pub drop : ℕ → List A → List A
  drop zero xs = xs
  drop (suc n) [] = []
  drop (suc n) (x ∷ xs) = drop n xs

  pub length-take : (n : ℕ) (xs : List A) → length (take n xs) ≤ n
  unfolding take
  length-take zero xs = omega arith
  length-take (suc n) [] = omega arith
  length-take (suc n) (x ∷ xs) = omega (arith, length-take n xs)

  pub length-drop : (n : ℕ) (xs : List A) → length (drop n xs) ≤ length xs
  unfolding drop
  length-drop zero xs = omega arith
  length-drop (suc n) [] = omega arith
  length-drop (suc n) (x ∷ xs) = omega (arith, length-drop n xs)

  -- The longest prefix of elements that pass the test, and what follows it.
  unfoldable pub take_while : (A → Bool) → List A → List A
  take_while p [] = []
  take_while p (x ∷ xs) = if p x then x ∷ take_while p xs else []

  unfoldable pub drop_while : (A → Bool) → List A → List A
  drop_while p [] = []
  drop_while p (x ∷ xs) = if p x then drop_while p xs else x ∷ xs

  abbrev pub AllPass : (A → Bool) → List A → Type 0
  AllPass p [] = Unit
  AllPass p (x ∷ xs) = (p x ≡ true) × AllPass p xs

  -- The list starts with no element that passes the test.
  abbrev pub Stops : (A → Bool) → List A → Type 0
  Stops p [] = Unit
  Stops p (x ∷ _) = p x ≡ false

  pub drop_while-length : (p : A → Bool) (xs : List A) → length (drop_while p xs) ≤ length xs
  unfolding drop_while
  drop_while-length p [] = omega arith
  drop_while-length p (x ∷ xs) = ground (arith, drop_while-length p xs)

  pub take_while-append :
      (p : A → Bool) (xs ys : List A) → AllPass p xs → Stops p ys → take_while p (xs ++ ys) ≡ xs
  unfolding take_while
  take_while-append p [] [] h s = refl
  take_while-append p [] (y ∷ ys) h s = ground arith
  take_while-append p (x ∷ xs) ys h s = ground (arith, take_while-append p xs ys h.1 s)

  pub drop_while-append :
      (p : A → Bool) (xs ys : List A) → AllPass p xs → Stops p ys → drop_while p (xs ++ ys) ≡ ys
  unfolding drop_while
  drop_while-append p [] [] h s = refl
  drop_while-append p [] (y ∷ ys) h s = ground arith
  drop_while-append p (x ∷ xs) ys h s = ground (arith, drop_while-append p xs ys h.1 s)

  pub drop_while-Stops : (p : A → Bool) (ys : List A) → Stops p ys → drop_while p ys ≡ ys
  drop_while-Stops p ys s = drop_while-append p [] ys tt s

  -- A cut that takes something leaves a shorter list.
  take_while-split : (p : A → Bool) (xs : List A) → take_while p xs ++ drop_while p xs ≡ xs
  unfolding take_while drop_while
  take_while-split p [] = refl
  take_while-split p (x ∷ xs) = ground (arith, take_while-split p xs)

  take_while-AllPass : (p : A → Bool) (xs : List A) → AllPass p (take_while p xs)
  unfolding take_while
  take_while-AllPass p [] = tt
  take_while-AllPass p (x ∷ xs) = ground (arith, take_while-AllPass p xs)

  -- Whether every element passes.
  abbrev pub all : (A → Bool) → List A → Bool
  all p [] = true
  all p (x ∷ xs) = if p x then all p xs else false

  abbrev pub any : (A → Bool) → List A → Bool
  any p [] = false
  any p (x ∷ xs) = if p x then true else any p xs
