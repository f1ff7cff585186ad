-- ===== src/Creation/CsvSerde.antt =====
-- The SerDe that BuildTableInfo (src/catalog/glue_schema_entry.cpp) chooses for a csv table.
use duckdb_aws_glue.Base.{
  ◌≡◌, inl, inr, refl, ◌∙◌, ap, true, not, ◌&&◌, text, text_eq, is_empty, if◌then◌else◌, some, ok,
  ◌>>=◌, Outcome, Bool-cases,
}
use duckdb_aws_glue.DuckDb.{DuckDb}
use duckdb_aws_glue.Table.Formats.{
  HiveSerDe, csv, lazy_simple, open_csv, hive_serde_file_format, serde_of,
}
use duckdb_aws_glue.Table.Info.{GlueTableInfo, find, get_serde}
use duckdb_aws_glue.Table.Delimiters.{is_open_csv}
use duckdb_aws_glue.Creation.Options.{GlueCreateTableOptions}
use duckdb_aws_glue.Creation.Build.{with_csv_serde, is_csv}
use duckdb_aws_glue.Creation.Tables.{FormatInput, csv_input, format_input, at, found}
use duckdb_aws_glue.Creation.Names.{serde_of-lazy_simple, serde_of-open_csv}
use duckdb_aws_glue.Creation.Built.{IsBuilt}

module _ ⦃db : DuckDb⦄ where
  -- the SerDe of a csv table has the separator that is looked up in its parameters
  pub record HasSeparator (options : GlueCreateTableOptions) (table : GlueTableInfo)
      (serde : HiveSerDe) : Type 0 where
    pub is_library : get_serde table ≡ ok serde
    pub is_csv_serde : hive_serde_file_format serde ≡ csv
    pub is_separator :
        find
          (if is_open_csv serde then text "separatorChar" else text "field.delim")
          table.serde_parameters
        ≡ some options.csv_delimiter

  pub csv-HasSeparator :
      (options : GlueCreateTableOptions) (table : GlueTableInfo)
      → IsBuilt options table
      → is_csv options.format ≡ true
      → (serde : HiveSerDe) × HasSeparator options table serde
        × (is_open_csv serde ≡ not (is_empty options.csv_quote && is_empty options.csv_escape))
  unfolding with_csv_serde find text_eq
  csv-HasSeparator options table b c =
      elim (Bool-cases (is_empty options.csv_quote && is_empty options.csv_escape)) [
        | inl plain ↦
            let library : table.serde_library
                ≡ text "org.apache.hadoop.hive.serde2.lazy.LazySimpleSerDe" =
              b.has_library c ∙ rw plain refl in
            let separator : find (text "field.delim") table.serde_parameters
                ≡ some options.csv_delimiter =
              rw (b.has_serde_parameters c, plain) refl in
            (
              lazy_simple,
              record {
                is_library = ap serde_of library ∙ serde_of-lazy_simple;
                is_csv_serde = refl;
                is_separator = separator;
              },
              rw plain refl,
            )
        | inr quoted ↦
            let library : table.serde_library ≡ text "org.apache.hadoop.hive.serde2.OpenCSVSerde" =
              b.has_library c ∙ rw quoted refl in
            let separator : find (text "separatorChar") table.serde_parameters
                ≡ some options.csv_delimiter =
              rw (b.has_serde_parameters c, quoted) refl in
            (
              open_csv,
              record {
                is_library = ap serde_of library ∙ serde_of-open_csv;
                is_csv_serde = refl;
                is_separator = separator;
              },
              rw quoted refl,
            )
      ]

  pub format_input-csv :
      (options : GlueCreateTableOptions) (table : GlueTableInfo) (serde : HiveSerDe)
      → HasSeparator options table serde
      → format_input csv table ≡ ok (csv_input options.csv_delimiter table)
  unfolding format_input
  format_input-csv options table serde s =
      ap (λ m. m >>= rest) s.is_library
      ∙ ap (λ o. found o >>= λ delimiter. ok (csv_input delimiter table)) s.is_separator
    where
      rest : HiveSerDe → Outcome FormatInput
      rest serde' =
          at (if is_open_csv serde' then text "separatorChar" else text "field.delim")
            table.serde_parameters
          >>= λ delimiter. ok (csv_input delimiter table)
