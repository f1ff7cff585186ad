-- ===== src/Types/Progress.antt =====
-- What the reading functions of the type parser leave of their input is no longer than it.
use duckdb_aws_glue.Base.{
  ℕ, ◌≤◌, ◌<◌, ◌≡◌, refl, Bool, true, false, [], ◌∷◌, arith, Text, ltb, is_empty, length,
  take_while, drop_while, drop_while-length, Ensures, holds, raises, Ensures-bind, Ensures-if,
  Ensures-weaken,
}
use duckdb_aws_glue.DuckDb.{DuckDb, is_space, is_digit, r_trim, digits_value}
use duckdb_aws_glue.Types.Parser.{
  skip_whitespace, after, starts, max_int64, peek, expect, is_identifier_byte, read_identifier,
  is_field_byte, not_backtick, close_quoted, quoted_name, unquoted_name, read_field_name,
  read_integer, parse_scale, parse_precision,
}

module _ ⦃db : DuckDb⦄ where
  length-skip : (s : Text) → length (skip_whitespace s) ≤ length s
  unfolding skip_whitespace
  length-skip s = drop_while-length is_space s

  pub length-peek : (c : ℕ) (s : Text) → length (peek c s).1 ≤ length s
  unfolding peek
  length-peek c s = length-skip s

  length-after : (c : ℕ) (s : Text) → starts c s ≡ true → length (after s) < length s
  length-after c [] h = cc
  length-after c (x ∷ s) h = omega arith

  pub length-peek-after :
      (c : ℕ) (s : Text) → (peek c s).0 ≡ true → length (after (peek c s).1) < length s
  unfolding peek
  length-peek-after c s h = omega (arith, length-after c (skip_whitespace s) h, length-skip s)

  pub expect-Ensures : (c : ℕ) (s : Text) → Ensures (λ r. length r < length s) (expect c s)
  unfolding expect
  expect-Ensures c s =
      Ensures-if (peek c s).0 (λ h. holds (length-peek-after c s h)) (λ h. raises refl)

  -- Something taken off the front leaves less.
  pub length-drop :
      (p : ℕ → Bool) (s : Text)
      → is_empty (take_while p s) ≡ false
      → length (drop_while p s) < length s
  unfolding take_while drop_while
  length-drop p [] h = cc
  length-drop p (c ∷ s) h = ground (arith, drop_while-length p s)

  pub read_identifier-Ensures :
      (s : Text) → Ensures (λ (name, r). length r < length s) (read_identifier s)
  unfolding read_identifier
  read_identifier-Ensures s =
      Ensures-if (is_empty (take_while is_identifier_byte (skip_whitespace s))) (λ h. raises refl)
        λ h.
          holds (omega (arith, length-drop is_identifier_byte (skip_whitespace s) h, length-skip s))

  pub read_integer-Ensures : (s : Text) → Ensures (λ (n, r). length r < length s) (read_integer s)
  unfolding read_integer
  read_integer-Ensures s =
      Ensures-if (is_empty (take_while is_digit (skip_whitespace s))) (λ h. raises refl)
        λ h.
          Ensures-if (ltb max_int64 (digits_value 0 (take_while is_digit (skip_whitespace s))))
            (λ _. raises refl)
            λ _. holds (omega (arith, length-drop is_digit (skip_whitespace s) h, length-skip s))

  close_quoted-Ensures :
      (name s : Text) → Ensures (λ (name, r). length r ≤ length s) (close_quoted name s)
  close_quoted-Ensures name [] = raises refl
  close_quoted-Ensures name (c ∷ s) = holds (omega arith)

  quoted_name-Ensures : (s : Text) → Ensures (λ (name, r). length r ≤ length s) (quoted_name s)
  unfolding quoted_name
  quoted_name-Ensures s =
      Ensures-weaken (close_quoted-Ensures _ (drop_while not_backtick s))
        λ (name, r) k. omega (arith, k, drop_while-length not_backtick s)

  unquoted_name-Ensures : (s : Text) → Ensures (λ (name, r). length r ≤ length s) (unquoted_name s)
  unfolding unquoted_name
  unquoted_name-Ensures s =
      Ensures-if (is_empty (r_trim (take_while is_field_byte s))) (λ h. raises refl)
        λ h. holds (drop_while-length is_field_byte s)

  pub read_field_name-Ensures :
      (s : Text) → Ensures (λ (name, r). length r ≤ length s) (read_field_name s)
  unfolding read_field_name
  read_field_name-Ensures s =
      let r = skip_whitespace s in
      Ensures-if (starts b'`' r)
        (λ h.
          Ensures-weaken (quoted_name-Ensures (after r))
            λ (name, t) k. omega (arith, k, length-after b'`' r h, length-skip s))
        λ h. Ensures-weaken (unquoted_name-Ensures r) λ (name, t) k. omega (arith, k, length-skip s)

  parse_scale-Ensures : (s : Text) → Ensures (λ (n, r). length r ≤ length s) (parse_scale s)
  unfolding parse_scale
  parse_scale-Ensures s =
      Ensures-if (peek b',' s).0
        (λ h.
          Ensures-weaken (read_integer-Ensures (after (peek b',' s).1))
            λ (n, r) k. omega (arith, k, length-peek-after b',' s h))
        λ h. holds (length-peek b',' s)

  pub parse_precision-Ensures :
      (s : Text) → Ensures (λ (n, r). length r ≤ length s) (parse_precision s)
  unfolding parse_precision
  parse_precision-Ensures s =
      Ensures-if (peek b'(' s).0
        (λ h. Ensures-bind (read_integer-Ensures (after (peek b'(' s).1)) λ (w, s₁) k₁.
          Ensures-bind (parse_scale-Ensures s₁) λ (n, s₂) k₂.
            Ensures-bind (expect-Ensures b')' s₂)
              λ s₃ k₃. holds (omega (arith, k₁, k₂, k₃, length-peek-after b'(' s h)))
        λ h. holds (length-peek b'(' s)
  -- What a run of ParseType establishes.
