-- ===== src/Creation/Asked.antt =====
-- The csv dialect that CREATE TABLE asks for (src/catalog/glue_schema_entry.cpp), and the keys of its properties.
use duckdb_aws_glue.Base.{
  ◌≡◌, ◌<◌, inl, inr, refl, Bool, true, ◌||◌, ◌&&◌, List, [], ◌∷◌, Text, text, text_eq,
  text_eq_sound, is_empty, if◌then◌else◌, none, Bool-cases,
}
use duckdb_aws_glue.DuckDb.{DuckDb}
use duckdb_aws_glue.Table.Info.{Parameters, find}
use duckdb_aws_glue.Creation.Values.{Value}
use duckdb_aws_glue.Creation.Named.{named, text_or}
use duckdb_aws_glue.Creation.Options.{GlueCreateTableOptions}
use duckdb_aws_glue.Creation.Tables.{table_parameters}
use duckdb_aws_glue.Creation.Objects.{emplace, to_aws_map}
use duckdb_aws_glue.Creation.Keys.{Excludes, emplace-Excludes, emplace_all-Excludes}

-- the keys of the dialect
abbrev pub is_dialect_key : Text → Bool
is_dialect_key key =
    text_eq key (text "field.delim")
    || text_eq key (text "separatorChar")
    || text_eq key (text "quoteChar")
    || text_eq key (text "escapeChar")
    || text_eq key (text "escape.delim")

-- at most one character, which is ASCII
abbrev pub IsAscii : Text → Type 0
IsAscii [] = Unit
IsAscii (c ∷ []) = c < 128
IsAscii (c ∷ d ∷ s) = ⊥

-- a csv dialect as CREATE TABLE takes it, with the quote and the escape empty where they are not given
pub record Dialect : Type 0 where
  pub delimiter : Text
  pub quote : Text
  pub escape : Text

abbrev pub of_options : GlueCreateTableOptions → Dialect
of_options options = record {
  delimiter = options.csv_delimiter;
  quote = options.csv_quote;
  escape = options.csv_escape;
}

-- the dialect that the options of the statement name
abbrev pub dialect_of : ⦃db : DuckDb⦄ → List (Text × Value) → Dialect
dialect_of entries = record {
  delimiter = text_or (text ",") (named (text "delimiter") entries);
  quote = text_or [] (named (text "quote") entries);
  escape = text_or [] (named (text "escape") entries);
}

-- the quote and the escape that are asked for; a csv file without either is not quoted
abbrev pub no_quotes : Dialect → Bool
no_quotes dialect = is_empty dialect.quote && is_empty dialect.escape

abbrev pub or_default : Text → Text → Text
or_default value default = if is_empty value then default else value

abbrev pub asked_quote : Dialect → Text
asked_quote dialect = if no_quotes dialect then [] else or_default dialect.quote (text "\"")

abbrev pub asked_escape : Dialect → Text
asked_escape dialect =
    if no_quotes dialect then [] else or_default dialect.escape (asked_quote dialect)

pub find-absent :
    (test : Text → Bool) (key : Text) (ps : Parameters)
    → Excludes test ps
    → test key ≡ true
    → find key ps ≡ none
unfolding find
find-absent test key [] h t = refl
find-absent test key ((k, v) ∷ rest) (n, h) t = elim (Bool-cases (text_eq k key)) [
  | inl same ↦ let e : k ≡ key = text_eq_sound k key same in absurd (cc (n, t, e))
  | inr differ ↦ rw differ (find-absent test key rest h t)
]

pub sent-Excludes :
    (delimiter description : Text) (ps : Parameters)
    → Excludes is_dialect_key ps
    → Excludes is_dialect_key (
        table_parameters description (
          emplace
            (text "delimiter")
            delimiter
            (emplace (text "classification") (text "csv") (to_aws_map ps))))
unfolding text_eq
sent-Excludes delimiter description ps h =
    let external = emplace-Excludes is_dialect_key (text "EXTERNAL") (text "TRUE") _ refl (
      emplace-Excludes is_dialect_key (text "delimiter") delimiter _ refl (
        emplace-Excludes is_dialect_key (text "classification") (text "csv") _ refl
          (emplace_all-Excludes is_dialect_key ps [] h tt))) in
    elim (Bool-cases (is_empty description)) [
      | inl empty ↦ rw empty external
      | inr given ↦
          rw given (emplace-Excludes is_dialect_key (text "comment") description _ refl external)
    ]
