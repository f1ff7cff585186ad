-- ===== src/Table/Separators.antt =====
-- What CheckTextSerdeSupported and the delimiter lookups give a csv scan.
use mathlib.Core.Path.{subst}
use duckdb_aws_glue.Base.{
  ℕ, ◌<◌, ◌≡◌, ◌≢◌, false, not, ◌||◌, [], ◌∷◌, Text, text, ok, after, ok-injective, arith, is_empty,
  if◌then◌else◌, refl, inl, inr, Bool-cases,
}
use duckdb_aws_glue.DuckDb.{DuckDb}
use duckdb_aws_glue.Table.Formats.{HiveSerDe}
use duckdb_aws_glue.Table.Info.{GlueTableInfo, get_serde, try_get_property}
use duckdb_aws_glue.Table.Delimiters.{
  is_open_csv, bad_separator, separator_byte, lazy_simple_separator, get_field_delimiter,
  get_null_format, get_quote_character, get_escape_character, get_header_line_count,
}
use duckdb_aws_glue.Table.CsvOptions.{HiveCsvOptions, get_csv_options, set_true}

-- one ASCII byte, neither NUL nor a line break
abbrev pub IsSeparator : Text → Type 0
IsSeparator [] = ⊥
IsSeparator (c ∷ []) = (0 < c) × (c < 128) × (c ≢ b'\n') × (c ≢ b'\r')
IsSeparator (c ∷ d ∷ s) = ⊥

module _ ⦃db : DuckDb⦄ where
  byte-IsSeparator : (c : ℕ) → bad_separator c ≡ false → IsSeparator (c ∷ [])
  byte-IsSeparator c h = ground arith

  lazy_simple_separator-IsSeparator :
      (value s : Text) → lazy_simple_separator value ≡ ok s → IsSeparator s
  unfolding lazy_simple_separator
  lazy_simple_separator-IsSeparator value s h = elim (Bool-cases (is_empty value)) [
    | inl unset ↦
        let same : 1 ∷ [] ≡ s = cc (rw unset at h) in rw (← same) (byte-IsSeparator 1 refl)
    | inr given ↦ elim (Bool-cases (bad_separator (separator_byte value))) [
      | inl bad ↦ absurd (cc (rw (given, bad) at h))
      | inr good ↦
          let same : separator_byte value ∷ [] ≡ s = cc (rw (given, good) at h) in
          rw (← same) (byte-IsSeparator (separator_byte value) good)
    ]
  ]

  -- The field delimiter of a table of another SerDe than OpenCSVSerde is one ASCII byte, neither NUL
  -- nor a line break, whatever its properties say.
  pub get_field_delimiter-IsSeparator :
      (table : GlueTableInfo) (serde : HiveSerDe) (delimiter : Text)
      → get_serde table ≡ ok serde
      → is_open_csv serde ≡ false
      → get_field_delimiter table ≡ ok delimiter
      → IsSeparator delimiter
  unfolding get_field_delimiter
  get_field_delimiter-IsSeparator table serde delimiter e n h =
      lazy_simple_separator-IsSeparator _ delimiter (rw (e, n) at h)

  -- What the options of a csv table say: each is what its lookup gives.
  pub record IsReadFrom (table : GlueTableInfo) (options : HiveCsvOptions) (serde : HiveSerDe)
      (null_format : Text) : Type 0 where
    is_delimiter : get_field_delimiter table ≡ ok options.delimiter
    is_quote : get_quote_character table ≡ ok options.quote
    is_escape : get_escape_character table ≡ ok options.escape
    is_null_format : get_null_format table ≡ ok null_format
    pub is_serde : get_serde table ≡ ok serde
    pub is_open : options.false_unless_true ≡ is_open_csv serde
    pub is_epoch : options.epoch_fields ≡ is_open_csv serde
    pub is_lenient : options.null_for_invalid_data ≡ (
        not (is_open_csv serde)
        || set_true (try_get_property table (text "use.null.for.invalid.data")))
    is_null : options.null_string ≡ (if is_open_csv serde then text "\n" else null_format)

  pub get_csv_options-IsReadFrom :
      (table : GlueTableInfo) (options : HiveCsvOptions)
      → get_csv_options table ≡ ok options
      → (serde : HiveSerDe) × (null_format : Text) × IsReadFrom table options serde null_format
  unfolding get_csv_options
  get_csv_options-IsReadFrom table options h =
      after (get_field_delimiter table) _ h (λ delimiter e₁ h₁.
        after (get_quote_character table) _ h₁ (λ quote e₂ h₂.
          after (get_escape_character table) _ h₂ (λ escape e₃ h₃.
            after (get_header_line_count table) _ h₃ (λ skip e₄ h₄.
              after (get_null_format table) _ h₄ (λ null_format e₅ h₅.
                after (get_serde table) _ h₅ (λ serde e₆ h₆.
                  subst
                    (λ o.
                      (serde : HiveSerDe) × (null_format : Text) × IsReadFrom table o serde
                        null_format)
                    (ok-injective h₆)
                    (
                      serde,
                      null_format,
                      record {
                        is_delimiter = e₁;
                        is_quote = e₂;
                        is_escape = e₃;
                        is_null_format = e₅;
                        is_serde = e₆;
                        is_open = refl;
                        is_epoch = refl;
                        is_lenient = refl;
                        is_null = refl;
                      },
                    )))))))
