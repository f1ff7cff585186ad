-- ===== src/Table/Conversions.antt =====
-- How the fields of a csv scan are converted (src/core/readers/hive_csv_options.cpp): FieldConversion of
-- the options that GetCSVOptions gives.
use duckdb_aws_glue.Base.{Bool, true, false, ◌≡◌, ◌∙◌, arith, ok}
use duckdb_aws_glue.DuckDb.{DuckDb}
use duckdb_aws_glue.Types.Logical.{LogicalType}
use duckdb_aws_glue.Types.TypeId.{TypeEquality}
use duckdb_aws_glue.Table.Formats.{HiveSerDe}
use duckdb_aws_glue.Table.Info.{GlueTableInfo, get_serde}
use duckdb_aws_glue.Table.Delimiters.{is_open_csv}
use duckdb_aws_glue.Table.CsvOptions.{
  HiveFieldConversion, cast, false_unless_true, epoch, try_epoch, HiveCsvOptions, field_conversion,
  get_csv_options,
}
use duckdb_aws_glue.Table.Separators.{get_csv_options-IsReadFrom}

-- whether a field that is no value of the column's type fails the scan
abbrev pub may_fail : HiveFieldConversion → Bool
may_fail cast = true
may_fail epoch = true
may_fail _ = false

-- whether the conversion is one that only OpenCSVSerde has
abbrev pub is_open_csv_conversion : HiveFieldConversion → Bool
is_open_csv_conversion false_unless_true = true
is_open_csv_conversion epoch = true
is_open_csv_conversion try_epoch = true
is_open_csv_conversion _ = false

module _ ⦃db : DuckDb⦄ ⦃eq : TypeEquality⦄ where
  lenient :
      (options : HiveCsvOptions) (type : LogicalType)
      → options.false_unless_true ≡ false
      → options.epoch_fields ≡ false
      → options.null_for_invalid_data ≡ true
      → (may_fail (field_conversion options type) ≡ false)
        × (is_open_csv_conversion (field_conversion options type) ≡ false)
  unfolding field_conversion
  lenient options type a b c = ground arith

  -- A csv scan of a table of another SerDe than OpenCSVSerde does not fail for a field that is no value of
  -- its column's type, which reads as NULL, and reads no field as OpenCSVSerde alone would.
  pub field_conversion-lenient :
      (table : GlueTableInfo) (options : HiveCsvOptions) (serde : HiveSerDe) (type : LogicalType)
      → get_csv_options table ≡ ok options
      → get_serde table ≡ ok serde
      → is_open_csv serde ≡ false
      → (may_fail (field_conversion options type) ≡ false)
        × (is_open_csv_conversion (field_conversion options type) ≡ false)
  field_conversion-lenient table options serde type h e lazy =
      let (serde', null_format, r) = get_csv_options-IsReadFrom table options h in
      let same : serde' ≡ serde = cc (r.is_serde, e) in
      let lazy' : is_open_csv serde' ≡ false = rw (same) lazy in
      lenient options type (r.is_open ∙ lazy') (r.is_epoch ∙ lazy')
        (r.is_lenient ∙ rw (lazy') (ground arith))
