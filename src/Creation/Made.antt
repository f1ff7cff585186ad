-- ===== src/Creation/Made.antt =====
-- What BuildTableInfo (src/catalog/glue_schema_entry.cpp) makes of a CREATE TABLE statement.
use mathlib.Core.Path.{subst}
use duckdb_aws_glue.Base.{
  ◌≡◌, inl, inr, refl, sym, Bool, true, false, not, ◌||◌, List, [], ◌∷◌, Text, is_empty,
  if◌then◌else◌, ok, after, Bool-cases, map, ok-injective, throw_if, binder, not_implemented, ap,
  Error, ◌∙◌, ◌&&◌, ℤ,
}
use duckdb_aws_glue.DuckDb.{DuckDb}
use duckdb_aws_glue.Table.Info.{GlueColumn, GlueTableInfo}
use duckdb_aws_glue.Creation.Options.{GlueCreateTableOptions, parse_create_table_options}
use duckdb_aws_glue.Creation.Bucketing.{
  column_name, resolve_column, resolve_columns, resolve_sort_columns, resolve_bucketing,
  has_duplicates, check_no_duplicates, is_not_given,
}
use duckdb_aws_glue.Creation.Build.{
  ColumnDefinition, CreateTableInfo, CreationContext, definition_name, data_columns, key_columns,
  partition_columns_from, get_table_location, assemble, build_table_info, with_csv_serde, is_csv,
  throw_if_unsupported,
}
use duckdb_aws_glue.Creation.Resolved.{AllIn, resolve_columns-AllIn, resolve_sort_columns-AllIn}

is_empty-[] : {A : Type 0} (l : List A) → is_empty l ≡ true → l ≡ []
is_empty-[] [] h = refl
is_empty-[] (x ∷ l) h = cc

throw_if-ok : (b : Bool) (e : Error) {u : Unit {0}} → throw_if b e ≡ ok u → b ≡ false
throw_if-ok true e h = cc
throw_if-ok false e h = refl

not_either : (a b : Bool) → (not a || not b) ≡ false → (a ≡ true) × (b ≡ true)
not_either true true h = (refl, refl)
not_either true false h = cc
not_either false b h = cc

module _ ⦃db : DuckDb⦄ where
  -- Columns to bucket and to sort by: each once, each a data column, and with a number of buckets just when
  -- there are columns to bucket by.
  pub record AreResolved (buckets : List Text) (count : ℤ) (sorts : List Text) (columns : List Text)
      : Type 0 where
    pub buckets_in : AllIn buckets columns
    pub sorts_in : AllIn sorts columns
    pub buckets_once : has_duplicates [] buckets ≡ false
    pub sorts_once : has_duplicates [] sorts ≡ false
    pub counted : is_empty buckets ≡ is_not_given count

  abbrev pub HasBuckets : GlueTableInfo → Type 0
  HasBuckets table =
      AreResolved table.bucket_columns table.number_of_buckets (map column_name table.sort_columns)
        (map column_name table.columns)

  resolve_columns-is_empty :
      (columns keys names spellings : List Text)
      → resolve_columns columns keys names ≡ ok spellings
      → is_empty spellings ≡ is_empty names
  unfolding resolve_columns
  resolve_columns-is_empty columns keys [] spellings h = ap is_empty (sym (ok-injective h))
  resolve_columns-is_empty columns keys (name ∷ names) spellings h =
      after (resolve_column columns keys name) _ h λ s e h₁.
        after (resolve_columns columns keys names) _ h₁
          λ ss e' h₂. ap is_empty (sym (ok-injective h₂))

  module _ (keys : List Text) (definitions : List ColumnDefinition) (columns : List GlueColumn)
      (built : data_columns keys definitions ≡ ok columns) where
    abbrev Resolved : GlueCreateTableOptions → Type 0
    Resolved options =
        AreResolved options.bucket_columns options.number_of_buckets
          (map column_name options.sort_columns) (map column_name columns)

    unbucketed :
        (options : GlueCreateTableOptions)
        → is_empty options.bucket_columns ≡ true
        → is_not_given options.number_of_buckets ≡ true
        → is_empty options.sort_columns ≡ true
        → Resolved options
    unfolding has_duplicates
    unbucketed options b c s =
        let no_buckets = is_empty-[] options.bucket_columns b in
        let no_sorts = is_empty-[] options.sort_columns s in
        record {
          buckets_in = rw no_buckets tt;
          sorts_in = rw no_sorts tt;
          buckets_once = rw no_buckets refl;
          sorts_once = rw no_sorts refl;
          counted = b ∙ sym c;
        }

    resolve_bucketing-Resolved :
        (options options' : GlueCreateTableOptions)
        → resolve_bucketing (map definition_name definitions) keys options ≡ ok options'
        → Resolved options'
    unfolding resolve_bucketing check_no_duplicates
    resolve_bucketing-Resolved options options' h =
        elim (Bool-cases (is_empty options.bucket_columns)) [
          | inl b ↦
              elim (Bool-cases (
                not (is_not_given options.number_of_buckets)
                || not (is_empty options.sort_columns))) [
                  | inl refused ↦ absurd (cc (rw (b, refused) at h))
                  | inr plain ↦
                      let (c, s) = not_either _ _ plain in
                      subst Resolved (ok-injective (rw (b, plain) at h)) (unbucketed options b c s)
                ]
          | inr b ↦ elim (Bool-cases (is_not_given options.number_of_buckets)) [
            | inl refused ↦ absurd (cc (rw (b, refused) at h))
            | inr c ↦
                after
                  (resolve_columns (map definition_name definitions) keys options.bucket_columns) _
                  (rw (b, c) at h)
                  λ buckets e₁ h₁.
                    after
                      (resolve_sort_columns (map definition_name definitions) keys
                        options.sort_columns)
                      _ h₁
                      λ sorts e₂ h₂. after (check_no_duplicates buckets) _ h₂ λ _ e₃ h₃.
                        after (check_no_duplicates (map column_name sorts)) _ h₃ λ _ e₄ h₄.
                          subst Resolved (ok-injective h₄) (record {
                            buckets_in =
                                resolve_columns-AllIn keys definitions columns built
                                  options.bucket_columns buckets e₁;
                            sorts_in =
                                resolve_sort_columns-AllIn keys definitions columns built
                                  options.sort_columns sorts e₂;
                            buckets_once = throw_if-ok _ binder e₃;
                            sorts_once = throw_if-ok _ binder e₄;
                            counted =
                                resolve_columns-is_empty _ keys options.bucket_columns buckets e₁
                                ∙ (b ∙ sym c);
                          })
          ]
        ]

    -- the SerDe of a csv table changes neither
    assemble-HasBuckets :
        (context : CreationContext) (base : CreateTableInfo) (options : GlueCreateTableOptions)
        (location : Text) (partition_keys : List GlueColumn)
        → Resolved options
        → HasBuckets (assemble context base options location columns partition_keys)
          × ((assemble context base options location columns partition_keys).columns ≡ columns)
    unfolding assemble with_csv_serde
    assemble-HasBuckets context base options location partition_keys r =
        elim (Bool-cases (is_csv options.format)) [
          | inr no_csv ↦ rw no_csv (r, refl)
          | inl with_csv ↦
              elim (Bool-cases (is_empty options.csv_quote && is_empty options.csv_escape)) [
                | inl plain ↦ rw (with_csv, plain) (r, refl)
                | inr quoted ↦ rw (with_csv, quoted) (r, refl)
              ]
        ]

  -- A table that BuildTableInfo makes has a data column. The columns that it is bucketed by are data columns
  -- of the table, spelled as there, and so are those that it is sorted by, no column is listed twice as one
  -- or the other, and it has a number of buckets just when it has columns to bucket by.
  pub build_table_info-HasBuckets :
      (context : CreationContext) (base : CreateTableInfo) (table : GlueTableInfo)
      → build_table_info context base ≡ ok table
      → HasBuckets table × (is_empty table.columns ≡ false)
  unfolding build_table_info
  build_table_info-HasBuckets context base table h =
      after (throw_if base.has_constraints not_implemented) _ h λ _ e₁ h₁.
        after (throw_if_unsupported base.columns) _ h₁ λ _ e₂ h₂.
          after (parse_create_table_options context.option_context base.options) _ h₂
            λ parsed e₃ h₃.
              after
                (partition_columns_from (map definition_name base.columns) base.partition_keys []) _
                h₃
                λ keys e₄ h₄.
                  after (resolve_bucketing (map definition_name base.columns) keys parsed) _ h₄
                    λ options e₅ h₅.
                      after
                        (if is_empty options.location
                          then get_table_location context base.table_name
                          else ok options.location)
                        _ h₅
                        λ location e₆ h₆.
                          after (data_columns keys base.columns) _ h₆ λ columns e₇ h₇.
                            after (key_columns base.columns keys) _ h₇ λ partition_keys e₈ h₈.
                              after (throw_if (is_empty columns) binder) _ h₈ λ _ e₉ h₉.
                                let made : assemble context base options location columns
                                      partition_keys
                                    ≡ table =
                                  ok-injective h₉ in
                                let (buckets, same) =
                                  assemble-HasBuckets keys base.columns columns e₇ context base
                                    options location partition_keys
                                    (resolve_bucketing-Resolved keys base.columns columns e₇ parsed
                                      options e₅) in
                                (
                                  subst HasBuckets made buckets,
                                  subst (λ t. is_empty t.columns ≡ false) made
                                      (ap is_empty same ∙ throw_if-ok _ binder e₉),
                                )
