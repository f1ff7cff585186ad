-- ===== src/Types/Lexemes.antt =====
-- What the reading functions of the type parser do at the front of a printed type.
use mathlib.Core.List.{reverse, reverse-reverse}
use mathlib.Core.Logic.{◌≢◌}
use mathlib.Core.Path.{fun_ext}
use duckdb_aws_glue.Base.{
  ℕ, ◌≤◌, ◌≡◌, refl, Bool, true, false, ◌||◌, ◌&&◌, [], ◌∷◌, ◌++◌, arith, Text, ◌==◌, leb, is_empty,
  all, any, AllPass, Stops, take_while-append, drop_while-append, drop_while-Stops, trim_end, ok,
}
use duckdb_aws_glue.DuckDb.{
  DuckDb, blank, digit, is_space, is_digit, lower, lower_byte, r_trim, print_number,
}
use duckdb_aws_glue.Types.Parser.{
  skip_whitespace, peek, expect, is_identifier_byte, read_identifier, is_field_byte,
  read_field_name, unquoted_name, read_integer, max_int64,
}
use duckdb_aws_glue.Types.Printer.{is_structural, refuses_name, starts_blank}

-- lower case letters and `_`, of which the keywords are made
abbrev pub plain : ℕ → Bool
plain c = leb b'a' c && leb c b'z' || c == b'_'

-- A type is followed by the end, or by what separates it from the rest of the type around it.
abbrev pub Ends : Text → Type 0
Ends [] = Unit
Ends (c ∷ _) = (c == b'>' || c == b',') ≡ true

module _ ⦃db : DuckDb⦄ where
  plain-identifier : (c : ℕ) → plain c ≡ true → is_identifier_byte c ≡ true
  unfolding is_identifier_byte
  plain-identifier c h = ground (arith, db.is_space_lem c)

  plain-space : (c : ℕ) → plain c ≡ true → is_space c ≡ false
  plain-space c h = ground (arith, db.is_space_lem c)

  plain-lower : (c : ℕ) → plain c ≡ true → lower_byte c ≡ c
  unfolding lower_byte
  plain-lower c h = ground arith

  pub lower-plain : (s : Text) → all plain s ≡ true → lower s ≡ s
  lower-plain [] h = db.lower-nil
  lower-plain (c ∷ s) h = ground (arith, db.lower-cons c s, plain-lower c, lower-plain s)

  identifier-AllPass : (s : Text) → all plain s ≡ true → AllPass is_identifier_byte s
  identifier-AllPass [] h = tt
  identifier-AllPass (c ∷ s) h = ground (arith, plain-identifier c, identifier-AllPass s)

  pub read_identifier-append :
      (c : ℕ) (s rest : Text)
      → all plain (c ∷ s) ≡ true
      → Stops is_identifier_byte rest
      → read_identifier (c ∷ (s ++ rest)) ≡ ok (c ∷ s, rest)
  unfolding read_identifier skip_whitespace
  read_identifier-append c s rest h stop = rw (
    drop_while-Stops is_space (c ∷ (s ++ rest)) (plain-space c (ground arith)),
    take_while-append is_identifier_byte (c ∷ s) rest (identifier-AllPass (c ∷ s) h) stop,
    drop_while-append is_identifier_byte (c ∷ s) rest (identifier-AllPass (c ∷ s) h) stop,
  )

  pub Ends-identifier : (rest : Text) → Ends rest → Stops is_identifier_byte rest
  unfolding is_identifier_byte
  Ends-identifier [] e = tt
  Ends-identifier (c ∷ rest) e = ground arith

  structural-space : (c : ℕ) → is_structural c ≡ true → is_space c ≡ false
  structural-space c h = ground (arith, db.is_space_lem c)

  -- A separator at the front is found, with no whitespace to skip.
  pub peek-structural :
      (d c : ℕ) (rest : Text) → is_space c ≡ false → peek d (c ∷ rest) ≡ (c == d, c ∷ rest)
  unfolding peek skip_whitespace
  peek-structural d c rest h = rw (drop_while-Stops is_space (c ∷ rest) h)

  pub not_space : (c : ℕ) → (is_structural c || c == b'(' || c == b')') ≡ true → is_space c ≡ false
  not_space c h = ground (arith, db.is_space_lem c)

  pub expect_self : (c : ℕ) (rest : Text) → is_space c ≡ false → expect c (c ∷ rest) ≡ ok rest
  unfolding expect
  expect_self c rest h = rw (peek-structural c c rest h) (ground arith)

  field-AllPass : (s : Text) → any is_structural s ≡ false → AllPass is_field_byte s
  unfolding is_field_byte
  field-AllPass [] h = tt
  field-AllPass (c ∷ s) h = ground (arith, field-AllPass s)

  not_blank-Stops : (s : Text) → starts_blank s ≡ false → Stops is_space s
  not_blank-Stops [] h = tt
  not_blank-Stops (c ∷ s) h = h

  blank-fun : is_space ≡ blank
  blank-fun = fun_ext db.is_space_lem

  r_trim-id : (s : Text) → starts_blank (reverse s) ≡ false → r_trim s ≡ s
  unfolding trim_end
  r_trim-id s h = rw (
    db.r_trim_lem,
    ← blank-fun,
    drop_while-Stops is_space (reverse s) (not_blank-Stops (reverse s) h),
    reverse-reverse,
  )

  unquoted_name-append :
      (c : ℕ) (s rest : Text)
      → refuses_name (c ∷ s) ≡ false
      → unquoted_name (c ∷ (s ++ b':' ∷ rest)) ≡ ok (c ∷ s, b':' ∷ rest)
  unfolding unquoted_name refuses_name
  unquoted_name-append c s rest h = rw (
    take_while-append is_field_byte (c ∷ s) (b':' ∷ rest) (field-AllPass (c ∷ s) (ground arith))
        (unfold is_field_byte in refl),
    drop_while-append is_field_byte (c ∷ s) (b':' ∷ rest) (field-AllPass (c ∷ s) (ground arith))
        (unfold is_field_byte in refl),
    r_trim-id (c ∷ s) (ground arith),
  )

  -- A field name that can be stored is read back, up to its colon.
  pub read_field_name-append :
      (name rest : Text)
      → refuses_name name ≡ false
      → read_field_name (name ++ b':' ∷ rest) ≡ ok (name, b':' ∷ rest)
  unfolding read_field_name skip_whitespace
  read_field_name-append [] rest h = unfold refuses_name in cc
  read_field_name-append (c ∷ s) rest h =
      rw
        (
          drop_while-Stops is_space (c ∷ (s ++ b':' ∷ rest)) (unfold refuses_name in ground arith),
          unquoted_name-append c s rest h,
        )
        (unfold refuses_name in ground arith)

  digits-AllPass : (s : Text) → AllPass digit s → AllPass is_digit s
  digits-AllPass [] h = tt
  digits-AllPass (c ∷ s) h = (rw db.is_digit_lem h.0, digits-AllPass s h.1)

  digit-space : (c : ℕ) → is_digit c ≡ true → is_space c ≡ false
  digit-space c h = ground (arith, db.is_space_lem c, db.is_digit_lem c)

  digits-Stops : (s rest : Text) → AllPass is_digit s → s ≢ [] → Stops is_space (s ++ rest)
  digits-Stops [] rest h n = absurd (n refl)
  digits-Stops (c ∷ s) rest h n = digit-space c h.0

  is_empty-ne : (s : Text) → s ≢ [] → is_empty s ≡ false
  is_empty-ne [] n = absurd (n refl)
  is_empty-ne (c ∷ s) n = refl

  -- A printed number is read back, if int64_t holds it.
  pub read_integer-print :
      (n : ℕ) (rest : Text)
      → n ≤ max_int64
      → Stops is_digit rest
      → read_integer (print_number n ++ rest) ≡ ok (n, rest)
  unfolding read_integer skip_whitespace
  read_integer-print n rest h stop =
      let digits = digits-AllPass _ (db.print_number-digits n) in
      let filled = db.print_number-ne-nil n in
      rw
        (
          drop_while-Stops is_space _ (digits-Stops (print_number n) rest digits filled),
          take_while-append is_digit (print_number n) rest digits stop,
          drop_while-append is_digit (print_number n) rest digits stop,
          is_empty-ne (print_number n) filled,
          db.digits_value-print_number n,
        )
        (ground arith)
