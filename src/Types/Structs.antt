-- ===== src/Types/Structs.antt =====
-- The parser on the printed text of structs.
use duckdb_aws_glue.Base.{
  ℕ, zero, suc, ◌+◌, ◌≤◌, ◌<◌, ◌≡◌, refl, ap, false, List, [], ◌∷◌, ◌++◌, append_assoc, arith, Text,
  text, length, length-append, ok, >>=-eq-ok, throw_if,
}
use duckdb_aws_glue.DuckDb.{DuckDb, join}
use duckdb_aws_glue.Types.Logical.{LogicalType, Fields, struct, no_fields, field}
use duckdb_aws_glue.Types.Parser.{Parser, parse_fields, next_field, parse_keyword, parse_type}
use duckdb_aws_glue.Types.Printer.{refuses_name, from_logical_type, from_fields}
use duckdb_aws_glue.Types.Lexemes.{peek-structural, not_space, expect_self, read_field_name-append}
use duckdb_aws_glue.Types.Stored.{stored, stored_fields, IsValid, IsValidFields}
use duckdb_aws_glue.Types.Reads.{
  ReadsFields, Reads, parse_struct-append, parse_type-bracket, keyword-struct,
}

module _ ⦃db : DuckDb⦄ where
  module _ (parse : Parser LogicalType) (loops : ℕ) (name s : Text) (type : LogicalType) where
    parse_fields-last :
        (rest : Text)
        → refuses_name name ≡ false
        → parse (s ++ b'>' ∷ rest) ≡ ok (type, b'>' ∷ rest)
        → parse_fields parse (suc loops) ((name ++ b':' ∷ s) ++ b'>' ∷ rest)
          ≡ ok (field name type no_fields, b'>' ∷ rest)
    unfolding parse_fields next_field
    parse_fields-last rest h e = simp append_assoc (
        rw (
          read_field_name-append name (s ++ b'>' ∷ rest) h,
          expect_self b':' (s ++ b'>' ∷ rest) (not_space b':' refl),
          e,
          peek-structural b',' b'>' rest (not_space b'>' refl),
        ))

    parse_fields-next :
        (others : Text) (children : Fields) (rest : Text)
        → refuses_name name ≡ false
        → parse (s ++ b',' ∷ (others ++ b'>' ∷ rest)) ≡ ok (type, b',' ∷ (others ++ b'>' ∷ rest))
        → parse_fields parse loops (others ++ b'>' ∷ rest) ≡ ok (children, b'>' ∷ rest)
        → parse_fields parse (suc loops) ((name ++ b':' ∷ s) ++ b',' ∷ (others ++ b'>' ∷ rest))
          ≡ ok (field name type children, b'>' ∷ rest)
    unfolding parse_fields next_field
    parse_fields-next others children rest h e₁ e₂ = simp append_assoc (
        rw (
          read_field_name-append name (s ++ b',' ∷ (others ++ b'>' ∷ rest)) h,
          expect_self b':' (s ++ b',' ∷ (others ++ b'>' ∷ rest)) (not_space b':' refl),
          e₁,
          peek-structural b',' b',' (others ++ b'>' ∷ rest) (not_space b',' refl),
          e₂,
        ))

  -- The parts of a successful print of fields.
  from_fields-eq-ok :
      (name : Text) (type : LogicalType) (others : Fields) {parts : List Text}
      → from_fields (field name type others) ≡ ok parts
      → (s : Text) × (more : List Text) × (refuses_name name ≡ false)
        × (from_logical_type type ≡ ok s)
        × (from_fields others ≡ ok more)
        × (parts ≡ (name ++ b':' ∷ s) ∷ more)
  unfolding from_fields
  from_fields-eq-ok name type others e =
      let (u, ok_name, e₁) = >>=-eq-ok (throw_if (refuses_name name) _) _ e in
      let (s, e₂, e₃) = >>=-eq-ok (from_logical_type type) _ e₁ in
      let (more, e₄, e₅) = >>=-eq-ok (from_fields others) _ e₃ in
      (s, more, ground arith, e₂, e₄, cc)

  pub from_no_fields : {more : List Text} → from_fields no_fields ≡ ok more → more ≡ []
  unfolding from_fields
  from_no_fields e = cc

  -- One field, last in its struct.
  pub last-ReadsFields :
      (name : Text) (type : LogicalType) → Reads type → ReadsFields (field name type no_fields)
  unfolding IsValidFields stored
  last-ReadsFields name type ih parts rest fuel zero v e l n h =
      let (s, more, accepted, e₁, e₂, p) = from_fields-eq-ok name type no_fields e in
      absurd (omega (arith, ap length p))
  last-ReadsFields name type ih parts rest fuel (suc loops) v e l n h =
      let (s, more, accepted, e₁, e₂, p) = from_fields-eq-ok name type no_fields e in
      let whole : parts ≡ (name ++ b':' ∷ s) ∷ [] = cc (p, from_no_fields e₂) in
      let joined : join parts (text ",") ≡ name ++ b':' ∷ s = rw whole (db.join-one _ _) in
      let short : length s < fuel =
        omega (arith, l, ap length joined, length-append name (b':' ∷ s)) in
      rw joined (
        parse_fields-last (parse_type fuel) loops name s (stored type) rest accepted
          (ih s (b'>' ∷ rest) fuel v.0 e₁ short refl))

  -- One field, with others behind it.
  pub next-ReadsFields :
      (name : Text) (type : LogicalType) (x : Text) (t : LogicalType) (others : Fields)
      → Reads type
      → ReadsFields (field x t others)
      → ReadsFields (field name type (field x t others))
  unfolding IsValidFields stored
  next-ReadsFields name type x t others ih ihs parts rest fuel zero v e l n h =
      let (s, more, accepted, e₁, e₂, p) = from_fields-eq-ok name type (field x t others) e in
      absurd (omega (arith, ap length p))
  next-ReadsFields name type x t others ih ihs parts rest fuel (suc loops) v e l n h =
      let (s, more, accepted, e₁, e₂, p) = from_fields-eq-ok name type (field x t others) e in
      let (s', more', accepted', e₃, e₄, p') = from_fields-eq-ok x t others e₂ in
      let behind = join more (text ",") in
      let joined : join parts (text ",") ≡ (name ++ b':' ∷ s) ++ b',' ∷ behind =
        rw (p, p') (db.join-cons _ _ _ _) in
      let sizes : length s + length behind < fuel = omega (
        arith,
        l,
        ap length joined,
        length-append (name ++ b':' ∷ s) (b',' ∷ behind),
        length-append name (b':' ∷ s),
      ) in
      rw (joined, append_assoc)
        (parse_fields-next (parse_type fuel) loops name s (stored type) behind
          (stored_fields (field x t others)) rest accepted
          (ih s (b',' ∷ (behind ++ b'>' ∷ rest)) fuel v.0 e₁ (omega arith) refl)
          (ihs more rest fuel loops v.1 e₂ (omega arith) (omega (arith, n, ap length p)) (cc p')))

  -- Every part holds at least its colon, so the text bounds the rounds of the loop.
  parts-le-join :
      (children : Fields) {parts : List Text}
      → from_fields children ≡ ok parts
      → length parts ≤ length (join parts (text ","))
  parts-le-join no_fields e = rw (from_no_fields e) (omega arith)
  parts-le-join (field name type no_fields) e =
      let (s, more, accepted, e₁, e₂, p) = from_fields-eq-ok name type no_fields e in
      rw (p, from_no_fields e₂, db.join-one) (omega (arith, length-append name (b':' ∷ s)))
  parts-le-join (field name type (field x t others)) e =
      let (s, more, accepted, e₁, e₂, p) = from_fields-eq-ok name type (field x t others) e in
      let (s', more', accepted', e₃, e₄, p') = from_fields-eq-ok x t others e₂ in
      let rest = (x ++ b':' ∷ s') ∷ more' in
      let ih : length rest ≤ length (join rest (text ",")) =
        rw p' at (parts-le-join (field x t others) e₂) in
      rw (p, p', db.join-cons)
        (omega (
          arith,
          ih,
          length-append (name ++ b':' ∷ s) (b',' ∷ join rest (text ",")),
          length-append name (b':' ∷ s),
        ))

  pub struct-Reads :
      (x : Text) (t : LogicalType) (others : Fields)
      → ReadsFields (field x t others)
      → Reads (struct (field x t others))
  unfolding from_logical_type stored IsValid
  struct-Reads x t others ihs s rest zero v e l n = absurd (omega arith)
  struct-Reads x t others ihs s rest (suc fuel) v e l n =
      let (parts, e₁, e₂) = >>=-eq-ok (from_fields (field x t others)) _ e in
      let (s', more, accepted, e₃, e₄, p) = from_fields-eq-ok x t others e₁ in
      let body = join parts (text ",") in
      let same : text "struct" ++ (b'<' ∷ (body ++ b'>' ∷ [])) ≡ s = cc in
      let short : length body + 2 < fuel =
        omega (arith, ap length same, length-append body (b'>' ∷ [])) in
      rw (← same) (
        simp append_assoc (
          rw (parse_type-bracket fuel b's' (text "truct") b'<' _ refl refl, keyword-struct)
            (unfold parse_keyword in
              parse_struct-append (parse_type fuel) fuel body rest
                (stored_fields (field x t others))
                (ihs parts rest fuel fuel v e₁ (omega arith)
                  (omega (arith, parts-le-join (field x t others) e₁)) (cc p)))))
