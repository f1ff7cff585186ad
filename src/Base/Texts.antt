-- ===== src/Base/Texts.antt =====
-- Texts as lists of bytes, their equality, prefixes and suffixes.
use Prim.Native.Nat.{ℕ}
use Prim.Native.Char.{code}
use Prim.Native.String.{String}
use mathlib.Core.Path.{◌≡◌, refl}
use mathlib.Core.Logic.{◌↔◌}
use mathlib.Core.Bool.{Bool, true, false, ◌&&◌}
use mathlib.Core.List.{List, [], ◌∷◌, reverse}
use native.Mathlib.Omega.{arith}
use duckdb_aws_glue.Base.Tests.{◌==◌}
use duckdb_aws_glue.Base.Lists.{drop_while}

abbrev pub Text : Type 0
Text = List ℕ

-- The bytes of an ASCII literal.
abbrev pub text : String → Text
text String.[] = []
text (String.◌∷◌ c s) = code c ∷ text s

unfoldable pub text_eq : Text → Text → Bool
text_eq [] [] = true
text_eq (a ∷ s) (b ∷ t) = a == b && text_eq s t
text_eq _ _ = false

pub text_eq_refl : (s : Text) → text_eq s s ≡ true
unfolding text_eq
text_eq_refl [] = refl
text_eq_refl (a ∷ s) = ground (arith, text_eq_refl s)

pub text_eq_sound : (s t : Text) → text_eq s t ≡ true → s ≡ t
unfolding text_eq
text_eq_sound [] [] h = refl
text_eq_sound [] (b ∷ t) h = ground arith
text_eq_sound (a ∷ s) [] h = ground arith
text_eq_sound (a ∷ s) (b ∷ t) h = ground (arith, text_eq_sound s t)

pub text_eq_iff : (s t : Text) → (text_eq s t ≡ true) ↔ (s ≡ t)
text_eq_iff s t = (text_eq_sound s t, λ e. rw e (text_eq_refl t))

pub text_eq_comm : (s t : Text) → text_eq s t ≡ text_eq t s
unfolding text_eq
text_eq_comm [] [] = refl
text_eq_comm [] (b ∷ t) = refl
text_eq_comm (a ∷ s) [] = refl
text_eq_comm (a ∷ s) (b ∷ t) = ground (arith, text_eq_comm s t)

-- The text without its trailing bytes that pass the test.
unfoldable pub trim_end : (ℕ → Bool) → Text → Text
trim_end p s = reverse (drop_while p (reverse s))
