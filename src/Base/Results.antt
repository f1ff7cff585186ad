-- ===== src/Base/Results.antt =====
-- Code that may throw returns an `Outcome`; the message of the exception is not kept.
use mathlib.Core.Path.{◌≡◌, refl, subst}
use mathlib.Core.Bool.{Bool, true, false}
use native.Mathlib.Omega.{arith}
use duckdb_aws_glue.Base.Tests.{if◌then◌else◌}

-- The exception classes, and `out_of_fuel`, which no program run shows.
pub data Error : Type 0 where
  invalid_input not_implemented binder io catalog internal out_of_range glue : Error
  invalid_configuration out_of_fuel : Error

pub data Outcome {ℓ} (A : Type ℓ) : Type ℓ where
  ok : A → Outcome A
  err : Error → Outcome A

-- `if (b) throw e;`
abbrev pub throw_if : Bool → Error → Outcome (Unit {0})
throw_if true e = err e
throw_if false e = ok tt

-- What follows a call runs only if the call did not throw.
infixl 5 ◌>>=◌
abbrev pub ◌>>=◌ {ℓ κ} : {A : Type ℓ} {B : Type κ} → Outcome A → (A → Outcome B) → Outcome B
err thrown >>= next = err thrown
ok value >>= next = next value

infixl 5 ◌>>◌
abbrev pub ◌>>◌ {ℓ} : {B : Type ℓ} → Outcome (Unit {0}) → Outcome B → Outcome B
call >> next = call >>= λ _. next

pub >>=-eq-ok {ℓ κ} :
    {A : Type ℓ} {B : Type κ} (m : Outcome A) (f : A → Outcome B) {b : B}
    → (m >>= f) ≡ ok b
    → (a : A) × (m ≡ ok a) × (f a ≡ ok b)
>>=-eq-ok (err thrown) f h = cc
>>=-eq-ok (ok value) f h = (value, refl, h)

pub ok-injective {ℓ} : {A : Type ℓ} {a b : A} → ok a ≡ ok b → a ≡ b
ok-injective h = cc

-- The same with a continuation, for long chains.
pub after {ℓ κ} :
    {A B : Type ℓ} {C : Type κ} (m : Outcome A) (f : A → Outcome B) {b : B}
    → (m >>= f) ≡ ok b
    → ((a : A) → m ≡ ok a → f a ≡ ok b → C)
    → C
after (ok a) f h k = k a refl h
after (err e) f h k = cc

pub >>-eq-ok : (m n : Outcome (Unit {0})) → (m >> n) ≡ ok tt → (m ≡ ok tt) × (n ≡ ok tt)
>>-eq-ok (ok tt) n h = (refl, h)
>>-eq-ok (err e) n h = cc

-- An exception that the program can throw.
abbrev pub is_program_error : Error → Bool
is_program_error out_of_fuel = false
is_program_error _ = true

-- `P` holds of the value, and the fuel did not run out.
pub data Ensures {ℓ κ} {A : Type ℓ} (P : A → Type κ) : Outcome A → Type (ℓ ⊔ κ) where
  holds : {a : A} → P a → Ensures P (ok a)
  raises : {e : Error} → is_program_error e ≡ true → Ensures P (err e)

module _ {ℓ κ} {A : Type ℓ} {P : A → Type κ} where
  pub Ensures-bind {ℓ' κ'} :
      {B : Type ℓ'} {Q : B → Type κ'} {m : Outcome A} {f : A → Outcome B}
      → Ensures P m
      → ((a : A) → P a → Ensures Q (f a))
      → Ensures Q (m >>= f)
  Ensures-bind (holds {a} h) k = k a h
  Ensures-bind (raises n) k = raises n

  Ensures-ok : {m : Outcome A} {a : A} → Ensures P m → m ≡ ok a → P a
  Ensures-ok (holds h) e = subst P (cc) h
  Ensures-ok (raises n) e = cc

  Ensures-no_fuel : {m : Outcome A} → Ensures P m → m ≡ err out_of_fuel → ⊥
  Ensures-no_fuel (holds h) e = cc
  Ensures-no_fuel (raises {e = x} n) e = ground arith

  pub Ensures-if :
      (b : Bool) {x y : Outcome A}
      → (b ≡ true → Ensures P x)
      → (b ≡ false → Ensures P y)
      → Ensures P (if b then x else y)
  Ensures-if true hx hy = hx refl
  Ensures-if false hx hy = hy refl

  pub Ensures-weaken {κ'} :
      {Q : A → Type κ'} {m : Outcome A} → Ensures P m → ((a : A) → P a → Q a) → Ensures Q m
  Ensures-weaken (holds {a} h) k = holds (k a h)
  Ensures-weaken (raises n) k = raises n
