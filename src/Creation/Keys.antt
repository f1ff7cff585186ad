-- ===== src/Creation/Keys.antt =====
-- Which keys the parameters of a created table have (src/catalog/glue_schema_entry.cpp).
use mathlib.Core.Path.{subst}
use duckdb_aws_glue.Base.{
  ◌≡◌, inl, inr, Bool, true, false, not, ◌||◌, ◌==◌, List, [], ◌∷◌, Text, text, text_eq, text_lt,
  length, if◌then◌else◌, Outcome, ok, after, Bool-cases, Option-cases, ok-injective,
}
use duckdb_aws_glue.DuckDb.{DuckDb, ci_equals, upper}
use duckdb_aws_glue.Table.Formats.{hive_file_format_from_string}
use duckdb_aws_glue.Table.Info.{Parameters, find}
use duckdb_aws_glue.Table.Alter.{assign}
use duckdb_aws_glue.Creation.Values.{
  Value, to_string, parse_bucket_columns, parse_number_of_buckets, parse_sort_columns,
}
use duckdb_aws_glue.Creation.Options.{
  GlueCreateTableOptions, OptionContext, with_bucketing_option, with_character, with_other_option,
  with_option, with_options, parse_create_table_options, no_nulls, default_options,
  is_bucketing_option, is_other_bucketing_option, is_other_engine_option,
}
use duckdb_aws_glue.Creation.Yields.{Yields, yields, throws, Yields-ok, Yields-if, Yields-bind}
use duckdb_aws_glue.Creation.Objects.{emplace, emplace_all}

-- No key passes the test.
abbrev pub Excludes : {A : Type 0} → (Text → Bool) → List (Text × A) → Type 0
Excludes test [] = Unit
Excludes test ((key, value) ∷ rest) = (test key ≡ false) × Excludes test rest

module _ (test : Text → Bool) where
  assign-Excludes :
      (key value : Text) (ps : Parameters)
      → test key ≡ false
      → Excludes test ps
      → Excludes test (assign key value ps)
  unfolding assign
  assign-Excludes key value [] h e = (h, tt)
  assign-Excludes key value ((k, v) ∷ rest) h (n, e) = elim (Bool-cases (text_eq k key)) [
    | inl same ↦ rw same (h, e)
    | inr differ ↦ elim (Bool-cases (text_lt key k)) [
      | inl before ↦ rw (differ, before) (h, (n, e))
      | inr later ↦ rw (differ, later) (n, assign-Excludes key value rest h e)
    ]
  ]

  pub emplace-Excludes :
      (key value : Text) (ps : Parameters)
      → test key ≡ false
      → Excludes test ps
      → Excludes test (emplace key value ps)
  unfolding emplace
  emplace-Excludes key value ps h e = elim (Option-cases (find key ps)) [
    | inl absent ↦ rw (absent, emplace) (assign-Excludes key value ps h e)
    | inr (v, there) ↦ rw (there, emplace) e
  ]

  pub emplace_all-Excludes :
      (entries ps : Parameters)
      → Excludes test entries
      → Excludes test ps
      → Excludes test (emplace_all entries ps)
  unfolding emplace_all
  emplace_all-Excludes [] ps h e = e
  emplace_all-Excludes ((key, value) ∷ rest) ps (n, h) e =
      emplace_all-Excludes rest (emplace key value ps) h (emplace-Excludes key value ps n e)

  -- the options that a call makes have no such parameter
  abbrev Kept : Outcome GlueCreateTableOptions → Type 0
  Kept = Yields (λ options. Excludes test options.parameters)

  module _ ⦃db : DuckDb⦄ (context : OptionContext)
      (header : test (text "skip.header.line.count") ≡ false) where
    module _ (key : Text) (value : Value) (options : GlueCreateTableOptions)
        (e : Excludes test options.parameters) where
      with_bucketing_option-Yields : Kept (with_bucketing_option context key value options)
      unfolding with_bucketing_option
      with_bucketing_option-Yields = Yields-if (not context.create_bucketed_tables) throws (
          Yields-if (ci_equals key (text "BucketColumns"))
            (Yields-bind (parse_bucket_columns value) _ λ x _. yields e)
            (Yields-if (ci_equals key (text "NumberOfBuckets"))
              (Yields-bind (parse_number_of_buckets value) _ λ x _. yields e)
              (Yields-bind (parse_sort_columns value) _ λ x _. yields e)))

      with_character-Yields :
          (string_value : Text) → Kept (with_character context key string_value options)
      unfolding with_character
      with_character-Yields string_value = Yields-if (not (length string_value == 1)) throws (
          Yields-if (ci_equals key (text "delimiter")) (yields e)
            (Yields-if (ci_equals key (text "quote")) (yields e) (yields e)))

      header-Excludes :
          (b : Bool)
          → Kept (
              ok (
                if b
                then record options {
                  parameters = assign (text "skip.header.line.count") (text "1") options.parameters;
                }
                else options))
      header-Excludes true =
          yields
            (assign-Excludes (text "skip.header.line.count") (text "1") options.parameters header e)
      header-Excludes false = yields e

      with_other_option-Yields :
          test key ≡ false → Kept (with_other_option context key value options)
      unfolding with_other_option
      with_other_option-Yields n =
          Yields-if (ci_equals key (text "overwrite"))
            (Yields-bind (context.to_boolean value) _ λ b _. yields e)
            (Yields-if (ci_equals key (text "header"))
              (Yields-bind (context.to_boolean value) _ λ b _. header-Excludes b)
              (Yields-if (is_bucketing_option key) with_bucketing_option-Yields (
                Yields-if (is_other_bucketing_option key || is_other_engine_option key) throws
                  (yields (assign-Excludes key (to_string value) options.parameters n e)))))

      with_option-Yields : test key ≡ false → Kept (with_option context key value options)
      unfolding with_option
      with_option-Yields n =
          Yields-if (ci_equals key (text "type"))
            (Yields-if (text_eq (upper (to_string value)) (text "HIVE")) (yields e) throws)
            (Yields-if (ci_equals key (text "format"))
              (Yields-bind (hive_file_format_from_string (to_string value)) _ λ f _. yields e)
              (Yields-if (ci_equals key (text "location")) (yields e) (
                Yields-if (ci_equals key (text "comment")) (yields e) (
                  Yields-if
                    (ci_equals key (text "delimiter")
                      || ci_equals key (text "quote")
                      || ci_equals key (text "escape"))
                    (with_character-Yields (to_string value)) (with_other_option-Yields n)))))

    with_options-Excludes :
        (entries : List (Text × Value)) (options : GlueCreateTableOptions)
        → Excludes test entries
        → Excludes test options.parameters
        → (options' : GlueCreateTableOptions) → with_options context entries options ≡ ok options'
        → Excludes test options'.parameters
    unfolding with_options
    with_options-Excludes [] options h e options' r =
        subst (λ o. Excludes test o.parameters) (ok-injective r) e
    with_options-Excludes ((key, value) ∷ rest) options (n, h) e options' r =
        after (with_option context key value options) _ r λ o e₁ r₁.
          with_options-Excludes rest o h (Yields-ok o (with_option-Yields key value options e n) e₁)
            options' r₁

    -- Parameters come from options of the same name, and from `header`.
    pub parse_create_table_options-Excludes :
        (entries : List (Text × Value)) (options : GlueCreateTableOptions)
        → Excludes test entries
        → parse_create_table_options context entries ≡ ok options
        → Excludes test options.parameters
    unfolding parse_create_table_options
    parse_create_table_options-Excludes entries options h r =
        after (no_nulls context entries) _ r
          λ _ _ r₁. with_options-Excludes entries default_options h tt options r₁
