-- ===== src/Creation/Built.antt =====
-- The options that BuildTableInfo (src/catalog/glue_schema_entry.cpp) hands on to the table.
use mathlib.Core.Path.{subst}
use duckdb_aws_glue.Base.{
  ◌≡◌, inl, inr, refl, sym, true, not, ◌||◌, ◌&&◌, List, [], Text, is_empty, if◌then◌else◌, ok,
  after, Bool-cases, map, ok-injective, throw_if, binder, not_implemented,
}
use duckdb_aws_glue.DuckDb.{DuckDb}
use duckdb_aws_glue.Table.Info.{GlueColumn, GlueTableInfo}
use duckdb_aws_glue.Creation.Options.{GlueCreateTableOptions, parse_create_table_options}
use duckdb_aws_glue.Creation.Bucketing.{
  column_name, resolve_columns, resolve_sort_columns, resolve_bucketing, check_no_duplicates,
  is_not_given,
}
use duckdb_aws_glue.Creation.Build.{
  CreateTableInfo, CreationContext, definition_name, data_columns, key_columns,
  partition_columns_from, get_table_location, assemble, build_table_info, with_csv_serde, is_csv,
  no_table, throw_if_unsupported,
}

module _ ⦃db : DuckDb⦄ where
  -- the SerDe that a csv table is given
  abbrev pub csv_serde : GlueCreateTableOptions → GlueTableInfo
  csv_serde options = with_csv_serde options no_table

  pub record IsBuilt (options : GlueCreateTableOptions) (table : GlueTableInfo) : Type 0 where
    pub has_parameters : table.parameters ≡ options.parameters
    pub has_format : table.file_format ≡ options.format
    pub has_library :
        is_csv options.format ≡ true → table.serde_library ≡ (csv_serde options).serde_library
    pub has_serde_parameters :
        is_csv options.format ≡ true → table.serde_parameters ≡ (csv_serde options).serde_parameters

  resolve_bucketing-keeps :
      (names keys : List Text) (options options' : GlueCreateTableOptions)
      → resolve_bucketing names keys options ≡ ok options'
      → (buckets : List Text) × (sorts : List GlueColumn) × (record options {
        bucket_columns = buckets;
        sort_columns = sorts;
      }
          ≡ options')
  unfolding resolve_bucketing
  resolve_bucketing-keeps names keys options options' h =
      elim (Bool-cases (is_empty options.bucket_columns)) [
        | inl b ↦
            elim (Bool-cases (
              not (is_not_given options.number_of_buckets)
              || not (is_empty options.sort_columns))) [
                | inl refused ↦ absurd (cc (rw (b, refused) at h))
                | inr plain ↦ (
                  options.bucket_columns,
                  options.sort_columns,
                  ok-injective (rw (b, plain) at h),
                )
              ]
        | inr b ↦ elim (Bool-cases (is_not_given options.number_of_buckets)) [
          | inl refused ↦ absurd (cc (rw (b, refused) at h))
          | inr c ↦
              after (resolve_columns names keys options.bucket_columns) _ (rw (b, c) at h)
                λ buckets e₁ h₁.
                  after (resolve_sort_columns names keys options.sort_columns) _ h₁ λ sorts e₂ h₂.
                    after (check_no_duplicates buckets) _ h₂ λ _ e₃ h₃.
                      after (check_no_duplicates (map column_name sorts)) _ h₃
                        λ _ e₄ h₄. (buckets, sorts, ok-injective h₄)
        ]
      ]

  assemble-IsBuilt :
      (context : CreationContext) (base : CreateTableInfo) (options : GlueCreateTableOptions)
      (location : Text) (columns partition_keys : List GlueColumn)
      → IsBuilt options (assemble context base options location columns partition_keys)
  unfolding assemble with_csv_serde
  assemble-IsBuilt context base options location columns partition_keys =
      elim (Bool-cases (is_csv options.format)) [
        | inr no_csv ↦ record {
          has_parameters = rw no_csv refl;
          has_format = rw no_csv refl;
          has_library = λ c. absurd (cc (c, no_csv));
          has_serde_parameters = λ c. absurd (cc (c, no_csv));
        }
        | inl with_csv ↦
            elim (Bool-cases (is_empty options.csv_quote && is_empty options.csv_escape)) [
              | inl plain ↦ record {
                has_parameters = rw (with_csv, plain) refl;
                has_format = rw (with_csv, plain) refl;
                has_library = λ _. rw (with_csv, plain) refl;
                has_serde_parameters = λ _. rw (with_csv, plain) refl;
              }
              | inr quoted ↦ record {
                has_parameters = rw (with_csv, quoted) refl;
                has_format = rw (with_csv, quoted) refl;
                has_library = λ _. rw (with_csv, quoted) refl;
                has_serde_parameters = λ _. rw (with_csv, quoted) refl;
              }
            ]
      ]

  -- bucketing is no matter of these
  unbucket :
      (parsed : GlueCreateTableOptions) (buckets : List Text) (sorts : List GlueColumn)
      (table : GlueTableInfo)
      → IsBuilt (record parsed { bucket_columns = buckets; sort_columns = sorts }) table
      → IsBuilt parsed table
  unfolding with_csv_serde
  unbucket parsed buckets sorts table b = record {
    has_parameters = b.has_parameters;
    has_format = b.has_format;
    has_library = b.has_library;
    has_serde_parameters = b.has_serde_parameters;
  }

  pub build_table_info-IsBuilt :
      (context : CreationContext) (base : CreateTableInfo) (table : GlueTableInfo)
      → build_table_info context base ≡ ok table
      → (parsed : GlueCreateTableOptions) × (parse_create_table_options context.option_context
            base.options
          ≡ ok parsed)
        × IsBuilt parsed table
  unfolding build_table_info
  build_table_info-IsBuilt context base table h =
      after (throw_if base.has_constraints not_implemented) _ h λ _ e₁ h₁.
        after (throw_if_unsupported base.columns) _ h₁ λ _ e₂ h₂.
          after (parse_create_table_options context.option_context base.options) _ h₂
            λ parsed e₃ h₃.
              after
                (partition_columns_from (map definition_name base.columns) base.partition_keys []) _
                h₃
                λ keys e₄ h₄.
                  after (resolve_bucketing (map definition_name base.columns) keys parsed) _ h₄
                    λ options e₅ h₅.
                      after
                        (if is_empty options.location
                          then get_table_location context base.table_name
                          else ok options.location)
                        _ h₅
                        λ location e₆ h₆.
                          after (data_columns keys base.columns) _ h₆ λ columns e₇ h₇.
                            after (key_columns base.columns keys) _ h₇ λ partition_keys e₈ h₈.
                              after (throw_if (is_empty columns) binder) _ h₈ λ _ e₉ h₉.
                                let (buckets, sorts, same) =
                                  resolve_bucketing-keeps _ keys parsed options e₅ in
                                let built : IsBuilt options table =
                                  subst (IsBuilt options) (ok-injective h₉) (
                                    assemble-IsBuilt context base options location columns
                                      partition_keys) in
                                (
                                  parsed,
                                  e₃,
                                  unbucket parsed buckets sorts table
                                      (subst (λ o. IsBuilt o table) (sym same) built),
                                )
