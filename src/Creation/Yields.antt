-- ===== src/Creation/Yields.antt =====
-- What holds of the options that a call makes, if it does not throw.
use mathlib.Core.Path.{subst}
use duckdb_aws_glue.Base.{
  ◌≡◌, refl, Bool, true, false, Error, Outcome, ok, err, ◌>>=◌, if◌then◌else◌, ok-injective,
}
use duckdb_aws_glue.Creation.Options.{GlueCreateTableOptions}

pub data Yields (P : GlueCreateTableOptions → Type 0)
    : Outcome GlueCreateTableOptions → Type 0 where
  yields : {options : GlueCreateTableOptions} → P options → Yields P (ok options)
  throws : {e : Error} → Yields P (err e)

module _ {P : GlueCreateTableOptions → Type 0} where
  pub Yields-ok :
      {m : Outcome GlueCreateTableOptions} (options : GlueCreateTableOptions)
      → Yields P m
      → m ≡ ok options
      → P options
  Yields-ok options (yields p) h = subst P (ok-injective h) p
  Yields-ok options throws h = cc

  -- with what the test says in each branch
  pub Yields-when :
      (b : Bool) {m n : Outcome GlueCreateTableOptions}
      → (b ≡ true → Yields P m)
      → (b ≡ false → Yields P n)
      → Yields P (if b then m else n)
  Yields-when true hm hn = hm refl
  Yields-when false hm hn = hn refl

  pub Yields-if :
      (b : Bool) {m n : Outcome GlueCreateTableOptions}
      → Yields P m
      → Yields P n
      → Yields P (if b then m else n)
  Yields-if b hm hn = Yields-when b (λ _. hm) (λ _. hn)

  pub Yields-bind :
      {A : Type 0} (m : Outcome A) (f : A → Outcome GlueCreateTableOptions)
      → ((a : A) → m ≡ ok a → Yields P (f a))
      → Yields P (m >>= f)
  Yields-bind (ok a) f k = k a refl
  Yields-bind (err e) f k = throws
