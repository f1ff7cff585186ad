-- ===== src/Types/Rejects.antt =====
-- Texts that name a type of one word and go on: ParseType stops at the first whitespace.
use duckdb_aws_glue.Base.{
  ℕ, suc, ◌≡◌, refl, true, false, ◌∷◌, ◌++◌, arith, Text, length, err, invalid_input, Stops,
  AllPass, drop_while-append, drop_while-Stops, take_while-append, ok,
}
use duckdb_aws_glue.DuckDb.{DuckDb, is_space, lower}
use duckdb_aws_glue.Types.Logical.{LogicalType}
use duckdb_aws_glue.Types.Parser.{
  simple, keyword, is_identifier_byte, read_identifier, skip_whitespace, parse_type, parse_keyword,
  to_logical_type,
}

module _ ⦃db : DuckDb⦄ where
  space-Stops : (c : ℕ) (rest : Text) → is_space c ≡ true → Stops is_identifier_byte (c ∷ rest)
  unfolding is_identifier_byte
  space-Stops c rest h = ground (arith, h)

  identifier-space : (c : ℕ) → is_identifier_byte c ≡ true → is_space c ≡ false
  unfolding is_identifier_byte
  identifier-space c h = ground (arith, h)

  skip-spaces :
      (spaces : Text) (d : ℕ) (rest : Text)
      → AllPass is_space spaces
      → is_space d ≡ false
      → skip_whitespace (spaces ++ d ∷ rest) ≡ d ∷ rest
  unfolding skip_whitespace
  skip-spaces spaces d rest s h = drop_while-append is_space spaces (d ∷ rest) s h

  read_identifier-word :
      (c : ℕ) (word rest : Text)
      → AllPass is_identifier_byte (c ∷ word)
      → Stops is_identifier_byte rest
      → read_identifier (c ∷ (word ++ rest)) ≡ ok (c ∷ word, rest)
  unfolding read_identifier skip_whitespace
  read_identifier-word c word rest h stop =
      rw
        (
          drop_while-Stops is_space (c ∷ (word ++ rest)) (identifier-space c h.0),
          take_while-append is_identifier_byte (c ∷ word) rest h stop,
          drop_while-append is_identifier_byte (c ∷ word) rest h stop,
        )
        refl

  parse_type-word :
      (fuel c : ℕ) (word rest : Text)
      → AllPass is_identifier_byte (c ∷ word)
      → Stops is_identifier_byte rest
      → parse_type (suc fuel) (c ∷ (word ++ rest))
        ≡ parse_keyword (parse_type fuel) fuel (keyword (lower (c ∷ word))) rest
  unfolding parse_type
  parse_type-word fuel c word rest h stop = rw (read_identifier-word c word rest h stop) refl

  -- The name of a type without parameters, in any case, and after it whitespace and anything but more whitespace, is
  -- refused: "timestamp with time zone" is one such text.
  pub to_logical_type-words :
      (c : ℕ) (word : Text) (type : LogicalType) (s : ℕ) (spaces : Text) (d : ℕ) (rest : Text)
      → AllPass is_identifier_byte (c ∷ word)
      → keyword (lower (c ∷ word)) ≡ simple type
      → AllPass is_space (s ∷ spaces)
      → is_space d ≡ false
      → to_logical_type (c ∷ (word ++ s ∷ (spaces ++ d ∷ rest))) ≡ err invalid_input
  unfolding to_logical_type
  to_logical_type-words c word type s spaces d rest h k blanks n =
      rw
        (
          parse_type-word (length (c ∷ (word ++ s ∷ (spaces ++ d ∷ rest)))) c word
              (s ∷ (spaces ++ d ∷ rest)) h (space-Stops s (spaces ++ d ∷ rest) blanks.0),
          k,
        )
        (unfold parse_keyword in rw (skip-spaces (s ∷ spaces) d rest blanks n) refl)
