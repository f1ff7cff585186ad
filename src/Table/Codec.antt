-- ===== src/Table/Codec.antt =====
-- The codec that a table records for its files (src/core/glue_info.cpp).
use duckdb_aws_glue.Base.{
  Bool, true, false, not, ◌&&◌, ◌||◌, [], Text, text, text_eq, is_empty, if◌then◌else◌, Outcome, ok,
  err, ◌>>=◌, not_implemented,
}
use duckdb_aws_glue.DuckDb.{DuckDb, lower}
use duckdb_aws_glue.Table.Formats.{HiveFileFormat, parquet, csv, json, avro}
use duckdb_aws_glue.Table.Info.{GlueTableInfo, get_parameter}

-- DuckDB's FileCompressionType as far as the code tells values apart.
pub data FileCompressionType : Type 0 where
  auto_detect gzip zstd : FileCompressionType
  other : Text → FileCompressionType

-- Its constructor from a name, IsCompressed and ToString, which are not in this repository.
pub record Compressions : Type 0 where
  pub from_name : Text → Outcome FileCompressionType
  pub is_compressed : FileCompressionType → Bool
  pub to_string : FileCompressionType → Text

abbrev pub is_written : FileCompressionType → Bool
is_written gzip = true
is_written zstd = true
is_written _ = false

module _ ⦃db : DuckDb⦄ where
  -- GetCodecParameter
  unfoldable pub get_codec_parameter : GlueTableInfo → Text → Text
  get_codec_parameter table key =
      let codec = get_parameter table key in
      if is_empty codec then get_parameter table (text "write_compression") else codec

  unfoldable pub get_compression_level : GlueTableInfo → Text
  get_compression_level table = get_parameter table (text "compression_level")

  -- the name of the codec of a csv or json table
  unfoldable pub text_codec : GlueTableInfo → Text
  unfolding get_codec_parameter
  text_codec table =
      let codec = get_codec_parameter table (text "write.compression") in
      if is_empty codec then get_parameter table (text "compressionType") else codec

  unfoldable pub checked_compression :
      Compressions → FileCompressionType → Outcome FileCompressionType
  checked_compression cs compression =
      if cs.is_compressed compression && not (is_written compression)
      then err not_implemented
      else ok compression

  -- GetTextCompression
  unfoldable pub get_text_compression : Compressions → GlueTableInfo → Outcome FileCompressionType
  unfolding checked_compression
  get_text_compression cs table =
      let codec = text_codec table in
      if is_empty codec
      then ok auto_detect
      else (do compression ← cs.from_name codec; checked_compression cs compression)

  unfoldable pub parquet_codec : GlueTableInfo → Text
  parquet_codec table =
      let codec = lower (get_codec_parameter table (text "parquet.compression")) in
      if text_eq codec (text "none") then text "uncompressed" else codec

  unfoldable pub avro_codec : GlueTableInfo → Outcome Text
  avro_codec table =
      let codec = lower (get_codec_parameter table (text "avro.output.codec")) in
      if text_eq codec (text "none") || text_eq codec (text "uncompressed")
      then ok (text "null")
      else if not (is_empty codec)
          && not (text_eq codec (text "snappy"))
          && not (text_eq codec (text "deflate"))
          && not (text_eq codec (text "null"))
      then err not_implemented
      else ok codec

  unfoldable pub written_name : Compressions → FileCompressionType → Text
  written_name cs compression =
      if cs.is_compressed compression then cs.to_string compression else []

  -- GetCodec
  unfoldable pub get_codec : Compressions → GlueTableInfo → HiveFileFormat → Outcome Text
  unfolding parquet_codec avro_codec written_name
  get_codec cs table parquet = ok (parquet_codec table)
  get_codec cs table avro = avro_codec table
  get_codec cs table csv = do
    compression ← get_text_compression cs table
    ok (written_name cs compression)
  get_codec cs table json = do
    compression ← get_text_compression cs table
    ok (written_name cs compression)
