-- ===== src/Types/Reads.antt =====
-- The parser on the printed text of simple types, decimals, lists and maps.
use duckdb_aws_glue.Base.{
  ℕ, zero, suc, ◌+◌, ◌≤◌, ◌<◌, ◌≡◌, refl, ap, true, List, [], ◌∷◌, ◌++◌, append_assoc, arith, Text,
  text, all, length, length-append, ◌==◌, ok, >>=-eq-ok, Stops, ◌≢◌, ◌||◌,
}
use duckdb_aws_glue.DuckDb.{DuckDb, join, print_number}
use duckdb_aws_glue.Types.Logical.{LogicalType, Fields, decimal, list, map_of, struct}
use duckdb_aws_glue.Types.Parser.{
  Parser, array, map_kw, struct_kw, decimal_kw, simple, keyword, parse_precision, parse_scale,
  parse_decimal, parse_fields, parse_array, parse_map, parse_struct, parse_keyword, parse_type,
  is_identifier_byte,
}
use duckdb_aws_glue.Types.Printer.{from_logical_type, from_fields}
use duckdb_aws_glue.Types.Lexemes.{
  plain, Ends, lower-plain, read_identifier-append, Ends-identifier, peek-structural, not_space,
  expect_self, read_integer-print,
}
use duckdb_aws_glue.Types.Stored.{stored, stored_fields, IsValid, IsValidFields}

module _ ⦃db : DuckDb⦄ where
  -- A keyword at the front selects its branch.
  pub parse_type-keyword :
      (fuel c : ℕ) (s rest : Text)
      → all plain (c ∷ s) ≡ true
      → Stops is_identifier_byte rest
      → parse_type (suc fuel) (c ∷ (s ++ rest))
        ≡ parse_keyword (parse_type fuel) fuel (keyword (c ∷ s)) rest
  unfolding parse_type
  parse_type-keyword fuel c s rest h stop =
      rw (read_identifier-append c s rest h stop, lower-plain (c ∷ s) h)

  parse_decimal-print :
      (width scale : ℕ) (rest : Text)
      → IsValid (decimal width scale)
      → parse_decimal (b'(' ∷ (print_number width ++ b',' ∷ (print_number scale ++ b')' ∷ rest)))
        ≡ ok (decimal width scale, rest)
  unfolding parse_decimal parse_precision parse_scale IsValid
  parse_decimal-print width scale rest v =
      rw
        (
          peek-structural b'(' b'(' _ (not_space b'(' refl),
          read_integer-print width (b',' ∷ (print_number scale ++ b')' ∷ rest))
              (omega (arith, v.0, v.1, db.max_width_decimal_le)) (db.is_digit_lem b','),
          peek-structural b',' b',' _ (not_space b',' refl),
          read_integer-print scale (b')' ∷ rest) (omega (arith, v.1, v.2, db.max_width_decimal_le))
              (db.is_digit_lem b')'),
          expect_self b')' rest (not_space b')' refl),
        )
        (ground (arith, v.0, v.1, v.2))

  -- The text of a STRUCT's children reads back, before the `>` that closes the type.
  abbrev pub ReadsFields : Fields → Type 0
  ReadsFields children =
      (parts : List Text) (rest : Text) (fuel loops : ℕ)
      → IsValidFields children
      → from_fields children ≡ ok parts
      → length (join parts (text ",")) < fuel
      → length parts ≤ loops
      → parts ≢ []
      → parse_fields (parse_type fuel) loops (join parts (text ",") ++ b'>' ∷ rest)
        ≡ ok (stored_fields children, b'>' ∷ rest)

  abbrev pub Reads : LogicalType → Type 0
  Reads type =
      (s rest : Text) (fuel : ℕ)
      → IsValid type
      → from_logical_type type ≡ ok s
      → length s < fuel
      → Ends rest
      → parse_type fuel (s ++ rest) ≡ ok (stored type, rest)

  -- fuel above any bound is a successor
  spend :
      {n : ℕ} (P : ℕ → Type 0)
      → ((fuel : ℕ) → n ≤ fuel → P (suc fuel))
      → (fuel : ℕ) → n < fuel
      → P fuel
  spend P k zero h = absurd (omega arith)
  spend P k (suc fuel) h = k fuel (omega arith)

  -- A type of one word.
  pub simple-Reads :
      (type : LogicalType) (c : ℕ) (w : Text)
      → all plain (c ∷ w) ≡ true
      → keyword (c ∷ w) ≡ simple (stored type)
      → from_logical_type type ≡ ok (c ∷ w)
      → Reads type
  simple-Reads type c w h k p s rest zero v e l n = absurd (omega arith)
  simple-Reads type c w h k p s rest (suc fuel) v e l n =
      let same : c ∷ w ≡ s = cc in
      rw (← same, parse_type-keyword fuel c w rest h (Ends-identifier rest n), k)
        (unfold parse_keyword in refl)

  -- What the parser does with the brackets around what it reads.
  module _ (parse : Parser LogicalType) where
    parse_array-append :
        (s rest : Text) (child : LogicalType)
        → parse (s ++ b'>' ∷ rest) ≡ ok (child, b'>' ∷ rest)
        → parse_array parse (b'<' ∷ (s ++ b'>' ∷ rest)) ≡ ok (list child, rest)
    unfolding parse_array
    parse_array-append s rest child e =
        rw (expect_self b'<' _ (not_space b'<' refl), e, expect_self b'>' _ (not_space b'>' refl))

    parse_map-append :
        (s t rest : Text) (key value : LogicalType)
        → parse (s ++ b',' ∷ (t ++ b'>' ∷ rest)) ≡ ok (key, b',' ∷ (t ++ b'>' ∷ rest))
        → parse (t ++ b'>' ∷ rest) ≡ ok (value, b'>' ∷ rest)
        → parse_map parse (b'<' ∷ (s ++ b',' ∷ (t ++ b'>' ∷ rest))) ≡ ok (map_of key value, rest)
    unfolding parse_map
    parse_map-append s t rest key value e₁ e₂ = rw (
      expect_self b'<' _ (not_space b'<' refl),
      e₁,
      expect_self b',' _ (not_space b',' refl),
      e₂,
      expect_self b'>' _ (not_space b'>' refl),
    )

    pub parse_struct-append :
        (loops : ℕ) (s rest : Text) (children : Fields)
        → parse_fields parse loops (s ++ b'>' ∷ rest) ≡ ok (children, b'>' ∷ rest)
        → parse_struct parse loops (b'<' ∷ (s ++ b'>' ∷ rest)) ≡ ok (struct children, rest)
    unfolding parse_struct
    parse_struct-append loops s rest children e =
        rw (expect_self b'<' _ (not_space b'<' refl), e, expect_self b'>' _ (not_space b'>' refl))

  opening :
      (c : ℕ) (rest : Text) → (c == b'<' || c == b'(') ≡ true → Stops is_identifier_byte (c ∷ rest)
  unfolding is_identifier_byte
  opening c rest h = ground arith

  -- A keyword that a bracket follows selects its branch.
  pub parse_type-bracket :
      (fuel c : ℕ) (s : Text) (d : ℕ) (rest : Text)
      → all plain (c ∷ s) ≡ true
      → (d == b'<' || d == b'(') ≡ true
      → parse_type (suc fuel) (c ∷ (s ++ d ∷ rest))
        ≡ parse_keyword (parse_type fuel) fuel (keyword (c ∷ s)) (d ∷ rest)
  parse_type-bracket fuel c s d rest h b =
      parse_type-keyword fuel c s (d ∷ rest) h (opening d rest b)

  keyword-array : keyword (text "array") ≡ array
  unfolding keyword
  keyword-array = refl

  keyword-map : keyword (text "map") ≡ map_kw
  unfolding keyword
  keyword-map = refl

  pub keyword-struct : keyword (text "struct") ≡ struct_kw
  unfolding keyword
  keyword-struct = refl

  keyword-decimal : keyword (text "decimal") ≡ decimal_kw
  unfolding keyword
  keyword-decimal = refl

  pub decimal-Reads : (width scale : ℕ) → Reads (decimal width scale)
  unfolding from_logical_type stored
  decimal-Reads width scale s rest zero v e l n = absurd (omega arith)
  decimal-Reads width scale s rest (suc fuel) v e l n =
      let tail = b'(' ∷ (print_number width ++ b',' ∷ (print_number scale ++ b')' ∷ [])) in
      let same : text "decimal" ++ tail ≡ s = cc in
      rw (← same) (
        simp append_assoc (
          rw (parse_type-bracket fuel b'd' (text "ecimal") b'(' _ refl refl, keyword-decimal)
            (unfold parse_keyword in parse_decimal-print width scale rest v)))

  pub list-Reads : (child : LogicalType) → Reads child → Reads (list child)
  unfolding from_logical_type stored IsValid
  list-Reads child ih s rest zero v e l n = absurd (omega arith)
  list-Reads child ih s rest (suc fuel) v e l n =
      let (a, e₁, e₂) = >>=-eq-ok (from_logical_type child) _ e in
      let same : text "array" ++ (b'<' ∷ (a ++ b'>' ∷ [])) ≡ s = cc in
      let short : length a < fuel = omega (arith, ap length same, length-append a (b'>' ∷ [])) in
      rw (← same) (
        simp append_assoc (
          rw (parse_type-bracket fuel b'a' (text "rray") b'<' _ refl refl, keyword-array)
            (unfold parse_keyword in
              parse_array-append (parse_type fuel) a rest (stored child)
                (ih a (b'>' ∷ rest) fuel v e₁ short refl))))

  pub map-Reads : (key value : LogicalType) → Reads key → Reads value → Reads (map_of key value)
  unfolding from_logical_type stored IsValid
  map-Reads key value ih₁ ih₂ s rest zero v e l n = absurd (omega arith)
  map-Reads key value ih₁ ih₂ s rest (suc fuel) v e l n =
      let (a, e₁, more) = >>=-eq-ok (from_logical_type key) _ e in
      let (b, e₂, e₃) = >>=-eq-ok (from_logical_type value) _ more in
      let same : text "map" ++ (b'<' ∷ (a ++ (b',' ∷ (b ++ b'>' ∷ [])))) ≡ s = cc in
      let sizes : length a + length b + 3 < fuel = omega (
        arith,
        ap length same,
        length-append a (b',' ∷ (b ++ b'>' ∷ [])),
        length-append b (b'>' ∷ []),
      ) in
      rw (← same) (
        simp append_assoc (
          rw (parse_type-bracket fuel b'm' (text "ap") b'<' _ refl refl, keyword-map)
            (unfold parse_keyword in
              parse_map-append (parse_type fuel) a b rest (stored key) (stored value)
                (ih₁ a _ fuel v.0 e₁ (omega arith) refl) (ih₂ b _ fuel v.1 e₂ (omega arith) refl))))
