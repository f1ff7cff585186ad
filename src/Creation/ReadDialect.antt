-- ===== src/Creation/ReadDialect.antt =====
-- The csv dialect of a table by the properties of its SerDe, read by the lookups of src/core/glue_info.cpp.
use duckdb_aws_glue.Base.{
  ◌≡◌, inl, inr, refl, ◌∙◌, ap, arith, true, false, not, [], ◌∷◌, Text, text, text_eq, is_empty,
  Option, none, some, ok, err, invalid_input, Outcome, Bool-cases,
}
use duckdb_aws_glue.DuckDb.{DuckDb, cast_bigint, first_code_point}
use duckdb_aws_glue.Table.Formats.{HiveSerDe}
use duckdb_aws_glue.Table.Info.{GlueTableInfo, find, try_get_property, get_serde}
use duckdb_aws_glue.Table.Delimiters.{
  is_open_csv, bad_separator, separator_byte, try_parse_integer, lazy_simple_separator,
  get_open_csv_character, get_field_delimiter, get_quote_character, get_escape_character,
}
use duckdb_aws_glue.Table.Separators.{IsSeparator}
use duckdb_aws_glue.Creation.Options.{GlueCreateTableOptions}
use duckdb_aws_glue.Creation.Build.{with_csv_serde}
use duckdb_aws_glue.Creation.Built.{csv_serde}
use duckdb_aws_glue.Creation.Asked.{
  Dialect, of_options, is_dialect_key, IsAscii, no_quotes, or_default, asked_quote, asked_escape,
}

module _ ⦃db : DuckDb⦄ where
  -- a table whose dialect is what the SerDe of the options says
  pub record HasDialect (options : GlueCreateTableOptions) (table : GlueTableInfo) : Type 0 where
    pub serde : HiveSerDe
    pub has_serde : get_serde table ≡ ok serde
    pub is_quoted : is_open_csv serde ≡ not (no_quotes (of_options options))
    pub has_property :
        (key : Text)
        → is_dialect_key key ≡ true
        → try_get_property table key ≡ find key (csv_serde options).serde_parameters

  -- the table gives the delimiter, the quote and the escape of a dialect
  abbrev pub IsRead : Dialect → GlueTableInfo → Type 0
  IsRead dialect table =
      (get_field_delimiter table ≡ ok dialect.delimiter)
      × (get_quote_character table ≡ ok (asked_quote dialect))
      × (get_escape_character table ≡ ok (asked_escape dialect))

  open_csv_character :
      (table : GlueTableInfo) (key fallback value : Text)
      → try_get_property table key ≡ some value
      → is_empty value ≡ false
      → IsAscii value
      → get_open_csv_character table key fallback ≡ ok value
  unfolding get_open_csv_character
  open_csv_character table key fallback [] h n a = cc
  open_csv_character table key fallback (c ∷ []) h n a =
      let one : first_code_point (c ∷ []) ≡ some (c ∷ []) = db.first_code_point-ascii c a in
      rw h (
        ap
          (λ (o : Option Text). elim o as (λ _. Outcome Text) [
            | some d ↦ ok d
            | none ↦ err invalid_input
          ])
          one)
  open_csv_character table key fallback (c ∷ d ∷ s) h n a = absurd a

  separator-is_empty : (delimiter : Text) → IsSeparator delimiter → is_empty delimiter ≡ false
  separator-is_empty [] s = absurd s
  separator-is_empty (c ∷ delimiter) s = refl

  separator-IsAscii : (delimiter : Text) → IsSeparator delimiter → IsAscii delimiter
  separator-IsAscii [] s = tt
  separator-IsAscii (c ∷ []) (_, below, _, _) = below
  separator-IsAscii (c ∷ d ∷ r) s = absurd s

  quoted_or :
      (value default : Text)
      → IsAscii value
      → IsAscii default
      → is_empty default ≡ false
      → IsAscii (or_default value default) × (is_empty (or_default value default) ≡ false)
  quoted_or [] default a b n = (b, n)
  quoted_or (c ∷ value) default a b n = (a, refl)

  separator_of :
      (delimiter : Text)
      → IsSeparator delimiter
      → cast_bigint delimiter ≡ none
      → lazy_simple_separator delimiter ≡ ok delimiter
  unfolding lazy_simple_separator separator_byte try_parse_integer
  separator_of [] s h = absurd s
  separator_of (c ∷ []) s h =
      let byte : separator_byte (c ∷ []) ≡ c = rw (separator_byte, try_parse_integer, h) refl in
      let good : bad_separator c ≡ false = ground arith in rw (byte, good) refl
  separator_of (c ∷ d ∷ r) s h = absurd s

  module _ (options : GlueCreateTableOptions) (table : GlueTableInfo) (d : HasDialect options table)
      (separator : IsSeparator options.csv_delimiter)
      (no_number : cast_bigint options.csv_delimiter ≡ none) (quote : IsAscii options.csv_quote)
      (escape : IsAscii options.csv_escape) where
    plain-IsRead : no_quotes (of_options options) ≡ true → IsRead (of_options options) table
    unfolding get_field_delimiter get_quote_character get_escape_character with_csv_serde find
        text_eq
    plain-IsRead plain =
        let lazy : is_open_csv d.serde ≡ false = d.is_quoted ∙ rw plain refl in
        let delimiter : try_get_property table (text "field.delim") ≡ some options.csv_delimiter =
          d.has_property (text "field.delim") refl ∙ rw plain refl in
        let no_escape : try_get_property table (text "escape.delim") ≡ none =
          d.has_property (text "escape.delim") refl ∙ rw plain refl in
        (
          rw (d.has_serde, lazy, delimiter)
              (separator_of options.csv_delimiter separator no_number),
          rw (d.has_serde, lazy, plain) refl,
          rw (d.has_serde, lazy, no_escape, plain) refl,
        )

    quoted-IsRead : no_quotes (of_options options) ≡ false → IsRead (of_options options) table
    unfolding get_field_delimiter get_quote_character get_escape_character with_csv_serde find
        text_eq
    quoted-IsRead quoted =
        let is_open : is_open_csv d.serde ≡ true = d.is_quoted ∙ rw quoted refl in
        let delimiter : try_get_property table (text "separatorChar") ≡ some options.csv_delimiter =
          d.has_property (text "separatorChar") refl ∙ rw quoted refl in
        let quote_char : try_get_property table (text "quoteChar")
            ≡ some (asked_quote (of_options options)) =
          d.has_property (text "quoteChar") refl ∙ rw quoted refl in
        let escape_char : try_get_property table (text "escapeChar")
            ≡ some (asked_escape (of_options options)) =
          d.has_property (text "escapeChar") refl ∙ rw quoted refl in
        let (one_quote, some_quote) =
          quoted_or options.csv_quote (text "\"") quote (omega arith) refl in
        let (one_escape, some_escape) =
          quoted_or options.csv_escape (or_default options.csv_quote (text "\"")) escape one_quote
            some_quote in
        let is_quote : get_open_csv_character table (text "quoteChar") (text "\"")
            ≡ ok (asked_quote (of_options options)) =
          open_csv_character table (text "quoteChar") (text "\"") (asked_quote (of_options options))
            quote_char (rw quoted some_quote) (rw quoted one_quote) in
        (
          rw (d.has_serde, is_open)
              (open_csv_character table (text "separatorChar") (text ",") options.csv_delimiter
                delimiter (separator-is_empty options.csv_delimiter separator)
                (separator-IsAscii options.csv_delimiter separator)),
          rw (d.has_serde, is_open) is_quote,
          rw (d.has_serde, is_open, is_quote)
              (open_csv_character table (text "escapeChar") (asked_quote (of_options options))
                (asked_escape (of_options options)) escape_char (rw quoted some_escape)
                (rw quoted one_escape)),
        )

    pub HasDialect-IsRead : IsRead (of_options options) table
    HasDialect-IsRead = elim (Bool-cases (no_quotes (of_options options))) [
      | inl plain ↦ plain-IsRead plain
      | inr quoted ↦ quoted-IsRead quoted
    ]
