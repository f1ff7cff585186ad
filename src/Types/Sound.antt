-- ===== src/Types/Sound.antt =====
-- The type parser ends on every input, and checks the decimals of what it returns.
use duckdb_aws_glue.Base.{
  ℕ, zero, suc, ◌≤◌, ◌<◌, ◌≡◌, refl, Bool, true, false, ◌||◌, [], ◌∷◌, arith, Text, ltb, length,
  Ensures, holds, raises, Ensures-bind, Ensures-if, Ensures-weaken, inl, inr, Bool-cases,
}
use duckdb_aws_glue.DuckDb.{DuckDb, lower, max_width_decimal}
use duckdb_aws_glue.Types.Logical.{LogicalType, Fields, decimal, list, map_of, struct, aliased}
use duckdb_aws_glue.Types.Parser.{
  Parser, Keyword, array, map_kw, struct_kw, decimal_kw, varchar_kw, unsupported, simple, keyword,
  skip_whitespace, after, peek, parse_decimal, parse_varchar, next_field, parse_fields, parse_array,
  parse_map, parse_struct, parse_keyword, parse_type, to_logical_type, finish,
}
use duckdb_aws_glue.Types.Stored.{IsValid, IsValidFields}
use duckdb_aws_glue.Types.Progress.{
  length-peek, length-peek-after, expect-Ensures, read_identifier-Ensures, read_integer-Ensures,
  read_field_name-Ensures, parse_precision-Ensures,
}

module _ ⦃db : DuckDb⦄ where
  abbrev pub Parsed : Text → LogicalType × Text → Type 0
  Parsed s (type, r) = IsValid type × (length r ≤ length s)

  parse_decimal-Ensures : (s : Text) → Ensures (Parsed s) (parse_decimal s)
  unfolding parse_decimal IsValid
  parse_decimal-Ensures s = Ensures-bind (parse_precision-Ensures s) λ ((width, scale), r) k.
      elim (Bool-cases (ltb width 1 || ltb max_width_decimal width || ltb width scale)) [
        | inl bad ↦ rw bad (raises refl)
        | inr good ↦ rw good (holds ((ground arith, ground arith, ground arith), k))
      ]

  parse_varchar-Ensures : (s : Text) → Ensures (Parsed s) (parse_varchar s)
  unfolding parse_varchar IsValid
  parse_varchar-Ensures s =
      Ensures-if (peek b'(' s).0
        (λ h. Ensures-bind (read_integer-Ensures (after (peek b'(' s).1)) λ (n, s₁) k₁.
          Ensures-bind (expect-Ensures b')' s₁)
            λ s₂ k₂. holds (tt, omega (arith, k₁, k₂, length-peek-after b'(' s h)))
        λ h. holds (tt, length-peek b'(' s)

  abbrev pub ParsedFields : Text → Fields × Text → Type 0
  ParsedFields s (children, r) = IsValidFields children × (length r ≤ length s)

  length-after-le : (s : Text) → length (after s) ≤ length s
  length-after-le [] = omega arith
  length-after-le (c ∷ s) = omega arith

  -- The step behind a field, where the rest of the loop meets its contract on shorter inputs.
  next_field-Ensures :
      (loop : Parser Fields) (bound : ℕ)
      → ((r : Text) → length r < bound → Ensures (ParsedFields r) (loop r))
      → (name : Text) (type : LogicalType) → IsValid type
      → (found : Bool) (r : Text) → length r < bound
      → Ensures
          (λ (children, t). IsValidFields children × (length t ≤ bound))
          (next_field loop name type (found, r))
  unfolding next_field IsValid
  next_field-Ensures loop bound sound name type v true r h =
      Ensures-bind (sound (after r) (omega (arith, length-after-le r)))
        λ (rest, t) k. holds ((v, k.0), omega (arith, k.1, length-after-le r))
  next_field-Ensures loop bound sound name type v false r h = holds ((v, tt), omega arith)

  -- A parser of types that meets its contract on inputs shorter than `bound`.
  abbrev pub Sound : Parser LogicalType → ℕ → Type 0
  Sound parse bound = (s : Text) → length s < bound → Ensures (Parsed s) (parse s)

  module _ (parse : Parser LogicalType) (bound : ℕ) (sound : Sound parse bound) where
    parse_array-Ensures : (s : Text) → length s ≤ bound → Ensures (Parsed s) (parse_array parse s)
    unfolding parse_array IsValid
    parse_array-Ensures s h = Ensures-bind (expect-Ensures b'<' s) λ s₁ k₁.
        Ensures-bind (sound s₁ (omega arith)) λ (child, s₂) k₂.
          Ensures-bind (expect-Ensures b'>' s₂) λ s₃ k₃. holds (k₂.0, omega (arith, k₁, k₂.1, k₃))

    parse_map-Ensures : (s : Text) → length s ≤ bound → Ensures (Parsed s) (parse_map parse s)
    unfolding parse_map IsValid
    parse_map-Ensures s h = Ensures-bind (expect-Ensures b'<' s) λ s₁ k₁.
        Ensures-bind (sound s₁ (omega arith)) λ (key, s₂) k₂.
          Ensures-bind (expect-Ensures b',' s₂) λ s₃ k₃.
            Ensures-bind (sound s₃ (omega (arith, k₂.1))) λ (value, s₄) k₄.
              Ensures-bind (expect-Ensures b'>' s₄)
                λ s₅ k₅. holds ((k₂.0, k₄.0), omega (arith, k₁, k₂.1, k₃, k₄.1, k₅))

    -- Every round of the loop reads at least the colon.
    parse_fields-Ensures :
        (loops : ℕ) (s : Text)
        → length s ≤ bound
        → length s < loops
        → Ensures (ParsedFields s) (parse_fields parse loops s)
    unfolding parse_fields
    parse_fields-Ensures zero s h l = absurd (omega arith)
    parse_fields-Ensures (suc loops) s h l =
        Ensures-bind (read_field_name-Ensures s) λ (name, s₁) k₁.
          Ensures-bind (expect-Ensures b':' s₁) λ s₂ k₂.
            Ensures-bind (sound s₂ (omega arith)) λ (type, s₃) k₃.
              next_field-Ensures (parse_fields parse loops) (length s)
                (λ r short. parse_fields-Ensures loops r (omega arith) (omega arith)) name type k₃.0
                (peek b',' s₃).0 (peek b',' s₃).1 (omega (arith, k₁, k₂, k₃.1, length-peek b',' s₃))

    parse_struct-Ensures :
        (loops : ℕ) (s : Text)
        → length s ≤ bound
        → length s ≤ loops
        → Ensures (Parsed s) (parse_struct parse loops s)
    unfolding parse_struct IsValid
    parse_struct-Ensures loops s h l = Ensures-bind (expect-Ensures b'<' s) λ s₁ k₁.
        Ensures-bind (parse_fields-Ensures loops s₁ (omega arith) (omega arith))
          λ (children, s₂) k₂.
            Ensures-bind (expect-Ensures b'>' s₂) λ s₃ k₃. holds (k₂.0, omega (arith, k₁, k₂.1, k₃))

    parse_keyword-Ensures :
        (loops : ℕ) (s : Text)
        → length s ≤ bound
        → length s ≤ loops
        → (k : Keyword) → ((t : LogicalType) → k ≡ simple t → IsValid t)
        → Ensures (Parsed s) (parse_keyword parse loops k s)
    unfolding parse_keyword
    parse_keyword-Ensures loops s h l array v = parse_array-Ensures s h
    parse_keyword-Ensures loops s h l map_kw v = parse_map-Ensures s h
    parse_keyword-Ensures loops s h l struct_kw v = parse_struct-Ensures loops s h l
    parse_keyword-Ensures loops s h l decimal_kw v = parse_decimal-Ensures s
    parse_keyword-Ensures loops s h l varchar_kw v = parse_varchar-Ensures s
    parse_keyword-Ensures loops s h l (simple t) v = holds (v t refl, omega arith)
    parse_keyword-Ensures loops s h l unsupported v = raises refl

  -- The types of one word are valid.
  keyword-IsValid : (name : Text) (t : LogicalType) → keyword name ≡ simple t → IsValid t
  unfolding keyword IsValid
  keyword-IsValid name (decimal width scale) e = absurd (ground arith)
  keyword-IsValid name (list child) e = absurd (ground arith)
  keyword-IsValid name (map_of key value) e = absurd (ground arith)
  keyword-IsValid name (struct children) e = absurd (ground arith)
  keyword-IsValid name (aliased other_name type) e = absurd (ground arith)
  keyword-IsValid name t e = tt

  parse_type-Ensures :
      (fuel : ℕ) (s : Text) → length s < fuel → Ensures (Parsed s) (parse_type fuel s)
  unfolding parse_type
  parse_type-Ensures zero s h = absurd (omega arith)
  parse_type-Ensures (suc fuel) s h = Ensures-bind (read_identifier-Ensures s) λ (name, r) k.
      Ensures-weaken
        (parse_keyword-Ensures (parse_type fuel) fuel (parse_type-Ensures fuel) fuel r (omega arith)
          (omega arith) (keyword (lower name)) (keyword-IsValid (lower name)))
        λ (type, t) p. (p.0, omega (arith, p.1))

  finish-Ensures :
      (type : LogicalType) (r : Text) → IsValid type → Ensures IsValid (finish (type, r))
  finish-Ensures type [] v = holds v
  finish-Ensures type (c ∷ r) v = raises refl

  -- On every text the parser ends within its fuel: it throws one of the program's exceptions, or it returns
  -- a type in which every decimal, at any depth, has a width from one to the greatest that DuckDB has and a
  -- scale that is not greater.
  pub to_logical_type-IsValid : (s : Text) → Ensures IsValid (to_logical_type s)
  unfolding to_logical_type
  to_logical_type-IsValid s =
      Ensures-bind (parse_type-Ensures (suc (length s)) s (omega arith))
        λ (type, r) k. finish-Ensures type (skip_whitespace r) k.0
