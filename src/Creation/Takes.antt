-- ===== src/Creation/Takes.antt =====
-- What one option of CREATE TABLE makes of the format and the csv dialect in the loop of ParseCreateTableOptions
-- (src/catalog/glue_schema_entry.cpp).
use duckdb_aws_glue.Base.{
  ◌≡◌, inl, inr, refl, sym, ◌∙◌, ap, arith, Bool, true, false, not, ◌||◌, ◌==◌, Text, text, text_eq,
  text_eq_sound, text_eq_refl, length, if◌then◌else◌, ok, after, Bool-cases, map,
}
use duckdb_aws_glue.DuckDb.{DuckDb, ci_equals, upper, lower, lower_byte}
use duckdb_aws_glue.Table.Formats.{hive_file_format_from_string}
use duckdb_aws_glue.Table.Alter.{assign}
use duckdb_aws_glue.Creation.Values.{
  Value, to_string, parse_bucket_columns, parse_number_of_buckets, parse_sort_columns,
}
use duckdb_aws_glue.Creation.Options.{
  GlueCreateTableOptions, OptionContext, with_bucketing_option, with_character, with_other_option,
  with_option, is_bucketing_option, is_other_bucketing_option, is_other_engine_option,
}
use duckdb_aws_glue.Creation.Yields.{Yields, yields, throws, Yields-when, Yields-if, Yields-bind}
use duckdb_aws_glue.Creation.Names.{lower_lem}

module _ ⦃db : DuckDb⦄ where
  -- names that differ in more than case are not both those of a key
  other_name :
      (key a b : Text)
      → text_eq (map lower_byte a) (map lower_byte b) ≡ false
      → ci_equals key a ≡ true
      → ci_equals key b ≡ false
  other_name key a b differ h = elim (Bool-cases (ci_equals key b)) [
    | inr unequal ↦ unequal
    | inl equal ↦
        let ea : lower key ≡ lower a =
          text_eq_sound (lower key) (lower a) (sym (db.ci_equals_lem key a) ∙ h) in
        let eb : lower key ≡ lower b =
          text_eq_sound (lower key) (lower b) (sym (db.ci_equals_lem key b) ∙ equal) in
        let same : map lower_byte a ≡ map lower_byte b =
          sym (lower_lem a) ∙ (sym ea ∙ (eb ∙ lower_lem b)) in
        absurd (cc (differ, same, text_eq_refl (map lower_byte b)))
  ]

  -- What a step of the loop makes of the four, from what they were.
  pub record Takes (key string_value : Text) (before after : GlueCreateTableOptions) : Type 0 where
    pub takes_format :
        (if ci_equals key (text "format")
          then hive_file_format_from_string string_value
          else ok before.format)
        ≡ ok after.format
    pub takes_delimiter :
        after.csv_delimiter
        ≡ (if ci_equals key (text "delimiter") then string_value else before.csv_delimiter)
    pub takes_quote :
        after.csv_quote ≡ (if ci_equals key (text "quote") then string_value else before.csv_quote)
    pub takes_escape :
        after.csv_escape
        ≡ (if ci_equals key (text "escape") then string_value else before.csv_escape)

  module _ (key : Text) (value : Value) (options : GlueCreateTableOptions) where
    -- the option has another name than the four
    record IsOther : Type 0 where
      no_format : ci_equals key (text "format") ≡ false
      no_delimiter : ci_equals key (text "delimiter") ≡ false
      no_quote : ci_equals key (text "quote") ≡ false
      no_escape : ci_equals key (text "escape") ≡ false

    unchanged :
        IsOther
        → (after : GlueCreateTableOptions) → options.format ≡ after.format
        → after.csv_delimiter ≡ options.csv_delimiter
        → after.csv_quote ≡ options.csv_quote
        → after.csv_escape ≡ options.csv_escape
        → Takes key (to_string value) options after
    unchanged o after f d q e = record {
      takes_format = rw o.no_format (ap ok f);
      takes_delimiter = rw o.no_delimiter d;
      takes_quote = rw o.no_quote q;
      takes_escape = rw o.no_escape e;
    }

    module _ (context : OptionContext) where
      with_bucketing_option-Takes :
          IsOther
          → Yields
              (Takes key (to_string value) options)
              (with_bucketing_option context key value options)
      unfolding with_bucketing_option
      with_bucketing_option-Takes o = Yields-if (not context.create_bucketed_tables) throws (
          Yields-if (ci_equals key (text "BucketColumns"))
            (Yields-bind (parse_bucket_columns value) _
              λ x _. yields (unchanged o _ refl refl refl refl))
            (Yields-if (ci_equals key (text "NumberOfBuckets"))
              (Yields-bind (parse_number_of_buckets value) _
                λ x _. yields (unchanged o _ refl refl refl refl))
              (Yields-bind (parse_sort_columns value) _
                λ x _. yields (unchanged o _ refl refl refl refl))))

      header-Takes :
          IsOther
          → (b : Bool)
          → Yields (Takes key (to_string value) options) (
              ok (
                if b
                then record options {
                  parameters = assign (text "skip.header.line.count") (text "1") options.parameters;
                }
                else options))
      header-Takes o true = yields (unchanged o _ refl refl refl refl)
      header-Takes o false = yields (unchanged o _ refl refl refl refl)

      with_other_option-Takes :
          IsOther
          → Yields
              (Takes key (to_string value) options)
              (with_other_option context key value options)
      unfolding with_other_option
      with_other_option-Takes o =
          Yields-if (ci_equals key (text "overwrite"))
            (Yields-bind (context.to_boolean value) _
              λ b _. yields (unchanged o _ refl refl refl refl))
            (Yields-if (ci_equals key (text "header"))
              (Yields-bind (context.to_boolean value) _ λ b _. header-Takes o b)
              (Yields-if (is_bucketing_option key) (with_bucketing_option-Takes o) (
                Yields-if (is_other_bucketing_option key || is_other_engine_option key) throws
                  (yields (unchanged o _ refl refl refl refl)))))

      -- a key that is equal but for case to a name that is none of the four
      named-IsOther :
          (name : Text)
          → ci_equals key name ≡ true
          → text_eq (map lower_byte name) (map lower_byte (text "format")) ≡ false
          → text_eq (map lower_byte name) (map lower_byte (text "delimiter")) ≡ false
          → text_eq (map lower_byte name) (map lower_byte (text "quote")) ≡ false
          → text_eq (map lower_byte name) (map lower_byte (text "escape")) ≡ false
          → IsOther
      named-IsOther name h f d q e = record {
        no_format = other_name key name (text "format") f h;
        no_delimiter = other_name key name (text "delimiter") d h;
        no_quote = other_name key name (text "quote") q h;
        no_escape = other_name key name (text "escape") e h;
      }

      with_character-Takes :
          ci_equals key (text "format") ≡ false
          → (ci_equals key (text "delimiter")
              || ci_equals key (text "quote")
              || ci_equals key (text "escape"))
            ≡ true
          → Yields
              (Takes key (to_string value) options)
              (with_character context key (to_string value) options)
      unfolding with_character lower_byte text_eq
      with_character-Takes n one = Yields-if (not (length (to_string value) == 1)) throws (
          Yields-when (ci_equals key (text "delimiter"))
            (λ d.
              let q = other_name key (text "delimiter") (text "quote") refl d in
              let e = other_name key (text "delimiter") (text "escape") refl d in
              yields (record {
                takes_format = rw n refl;
                takes_delimiter = rw d refl;
                takes_quote = rw q refl;
                takes_escape = rw e refl;
              }))
            (λ d.
              Yields-when (ci_equals key (text "quote"))
                (λ q.
                  let e = other_name key (text "quote") (text "escape") refl q in
                  yields (record {
                    takes_format = rw n refl;
                    takes_delimiter = rw d refl;
                    takes_quote = rw q refl;
                    takes_escape = rw e refl;
                  }))
                (λ q.
                  let e : ci_equals key (text "escape") ≡ true = rw (d, q) at one in
                  yields (record {
                    takes_format = rw n refl;
                    takes_delimiter = rw d refl;
                    takes_quote = rw q refl;
                    takes_escape = rw e refl;
                  }))))

      pub with_option-Takes :
          Yields (Takes key (to_string value) options) (with_option context key value options)
      unfolding with_option lower_byte text_eq
      with_option-Takes =
          Yields-when (ci_equals key (text "type"))
            (λ t.
              Yields-if (text_eq (upper (to_string value)) (text "HIVE"))
                (yields (
                  unchanged (named-IsOther (text "type") t refl refl refl refl) _ refl refl refl
                    refl))
                throws)
            (λ t.
              Yields-when (ci_equals key (text "format"))
                (λ f.
                  let d = other_name key (text "format") (text "delimiter") refl f in
                  let q = other_name key (text "format") (text "quote") refl f in
                  let e = other_name key (text "format") (text "escape") refl f in
                  Yields-bind (hive_file_format_from_string (to_string value)) _ λ format r.
                    yields (record {
                      takes_format = rw f r;
                      takes_delimiter = rw d refl;
                      takes_quote = rw q refl;
                      takes_escape = rw e refl;
                    }))
                (λ f.
                  Yields-when (ci_equals key (text "location"))
                    (λ l. yields (
                      unchanged (named-IsOther (text "location") l refl refl refl refl) _ refl refl
                        refl refl))
                    (λ l.
                      Yields-when (ci_equals key (text "comment"))
                        (λ c. yields (
                          unchanged (named-IsOther (text "comment") c refl refl refl refl) _ refl
                            refl refl refl))
                        (λ c.
                          Yields-when
                            (ci_equals key (text "delimiter")
                              || ci_equals key (text "quote")
                              || ci_equals key (text "escape"))
                            (λ one. with_character-Takes f one)
                            (λ none. with_other_option-Takes (record {
                              no_format = f;
                              no_delimiter = ground (arith, none);
                              no_quote = ground (arith, none);
                              no_escape = ground (arith, none);
                            }))))))
