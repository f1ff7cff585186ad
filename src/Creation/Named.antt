-- ===== src/Creation/Named.antt =====
-- What the options of CREATE TABLE say of the format and the csv dialect, and that ParseCreateTableOptions
-- (src/catalog/glue_schema_entry.cpp) takes them so.
use mathlib.Core.Path.{subst}
use duckdb_aws_glue.Base.{
  ◌≡◌, refl, ◌∙◌, Bool, true, false, List, [], ◌∷◌, Text, text, if◌then◌else◌, Option, none, some,
  Outcome, ok, after, ok-injective,
}
use duckdb_aws_glue.DuckDb.{DuckDb, ci_equals}
use duckdb_aws_glue.Table.Formats.{HiveFileFormat, parquet, hive_file_format_from_string}
use duckdb_aws_glue.Creation.Values.{Value, to_string}
use duckdb_aws_glue.Creation.Options.{
  GlueCreateTableOptions, OptionContext, with_option, with_options, parse_create_table_options,
  no_nulls, default_options,
}
use duckdb_aws_glue.Creation.Yields.{Yields-ok}
use duckdb_aws_glue.Creation.Takes.{with_option-Takes}

module _ ⦃db : DuckDb⦄ where
  -- the text of the option with a name, in any case, of the last where there are several, or else what stands before
  abbrev pub named_from : Text → List (Text × Value) → Option Text → Option Text
  named_from name [] found = found
  named_from name ((key, value) ∷ rest) found =
      named_from name rest (if ci_equals key name then some (to_string value) else found)

  abbrev pub named : Text → List (Text × Value) → Option Text
  named name entries = named_from name entries none

  abbrev pub text_or : Text → Option Text → Text
  text_or default (some s) = s
  text_or default none = default

  -- the format that the option `format` names, parquet without it
  abbrev pub format_or : HiveFileFormat → Option Text → Outcome HiveFileFormat
  format_or default (some s) = hive_file_format_from_string s
  format_or default none = ok default

  format_step :
      (b : Bool) (s : Text) (found : Option Text) (before after : HiveFileFormat)
      → format_or parquet found ≡ ok before
      → (if b then hive_file_format_from_string s else ok before) ≡ ok after
      → format_or parquet (if b then some s else found) ≡ ok after
  format_step true s found before after h t = t
  format_step false s found before after h t = h ∙ t

  text_step :
      (b : Bool) (s default : Text) (found : Option Text) (before after : Text)
      → before ≡ text_or default found
      → after ≡ (if b then s else before)
      → after ≡ text_or default (if b then some s else found)
  text_step true s default found before after h t = t
  text_step false s default found before after h t = t ∙ h

  -- the four, where these are the texts of the options so far
  record Says (format delimiter quote escape : Option Text) (options : GlueCreateTableOptions)
      : Type 0 where
    says_format : format_or parquet format ≡ ok options.format
    says_delimiter : options.csv_delimiter ≡ text_or (text ",") delimiter
    says_quote : options.csv_quote ≡ text_or [] quote
    says_escape : options.csv_escape ≡ text_or [] escape

  module _ (context : OptionContext) where
    with_options-Says :
        (entries : List (Text × Value)) (f d q e : Option Text)
        (options options' : GlueCreateTableOptions)
        → Says f d q e options
        → with_options context entries options ≡ ok options'
        → Says
            (named_from (text "format") entries f)
            (named_from (text "delimiter") entries d)
            (named_from (text "quote") entries q)
            (named_from (text "escape") entries e)
            options'
    unfolding with_options
    with_options-Says [] f d q e options options' s h = subst (Says f d q e) (ok-injective h) s
    with_options-Says ((key, value) ∷ rest) f d q e options options' s h =
        after (with_option context key value options) _ h λ o e₁ h₁.
          let t = Yields-ok o (with_option-Takes key value options context) e₁ in
          with_options-Says rest _ _ _ _ o options'
            (record {
              says_format =
                  format_step (ci_equals key (text "format")) (to_string value) f options.format
                    o.format s.says_format t.takes_format;
              says_delimiter =
                  text_step (ci_equals key (text "delimiter")) (to_string value) (text ",") d
                    options.csv_delimiter o.csv_delimiter s.says_delimiter t.takes_delimiter;
              says_quote =
                  text_step (ci_equals key (text "quote")) (to_string value) [] q options.csv_quote
                    o.csv_quote s.says_quote t.takes_quote;
              says_escape =
                  text_step (ci_equals key (text "escape")) (to_string value) [] e
                    options.csv_escape o.csv_escape s.says_escape t.takes_escape;
            })
            h₁

    -- The options that ParseCreateTableOptions returns have the format and the characters that the statement names, or
    -- the defaults.
    pub parse_create_table_options-named :
        (entries : List (Text × Value)) (options : GlueCreateTableOptions)
        → parse_create_table_options context entries ≡ ok options
        → (format_or parquet (named (text "format") entries) ≡ ok options.format)
          × (options.csv_delimiter ≡ text_or (text ",") (named (text "delimiter") entries))
          × (options.csv_quote ≡ text_or [] (named (text "quote") entries))
          × (options.csv_escape ≡ text_or [] (named (text "escape") entries))
    unfolding parse_create_table_options
    parse_create_table_options-named entries options h =
        after (no_nulls context entries) _ h λ _ _ h₁.
          let s =
            with_options-Says entries none none none none default_options options
              (record {
                says_format = refl;
                says_delimiter = refl;
                says_quote = refl;
                says_escape = refl;
              })
              h₁ in
          (s.says_format, s.says_delimiter, s.says_quote, s.says_escape)
