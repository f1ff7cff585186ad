-- ===== src/Table/Written.antt =====
-- What the lookups of src/core/glue_info.cpp give the writers: the file format and its codec.
use duckdb_aws_glue.Base.{
  ◌≡◌, ◌↔◌, ◌⊎◌, inl, inr, refl, arith, Bool, true, false, not, ◌&&◌, ◌||◌, [], Text, text, text_eq,
  text_eq_sound, is_empty, if◌then◌else◌, ok, err, ◌>>=◌, not_implemented, Bool-cases, after,
  ok-injective,
}
use duckdb_aws_glue.DuckDb.{DuckDb, lower}
use duckdb_aws_glue.Table.Formats.{
  HiveFileFormat, parquet, csv, json, avro, hive_file_format_from_string,
  hive_file_format_to_string,
}
use duckdb_aws_glue.Table.Info.{GlueTableInfo}
use duckdb_aws_glue.Table.Codec.{
  Compressions, FileCompressionType, auto_detect, gzip, zstd, other, is_written, get_codec,
  get_text_compression, checked_compression, text_codec, parquet_codec, avro_codec, written_name,
  get_codec_parameter,
}

module _ ⦃db : DuckDb⦄ where
  -- HiveFileFormatFromString accepts the names that HiveFileFormatToString prints, in any case, and nothing
  -- else.
  pub hive_file_format_from_string_iff :
      (s : Text) (format : HiveFileFormat)
      → (hive_file_format_from_string s ≡ ok format) ↔ (lower s ≡ hive_file_format_to_string format)
  unfolding hive_file_format_from_string hive_file_format_to_string
  hive_file_format_from_string_iff s parquet = (
    λ h. text_eq_sound (lower s) (text "parquet") (ground arith),
    λ h. rw (h) (unfold text_eq in refl),
  )
  hive_file_format_from_string_iff s csv = (
    λ h. text_eq_sound (lower s) (text "csv") (ground arith),
    λ h. rw (h) (unfold text_eq in refl),
  )
  hive_file_format_from_string_iff s json = (
    λ h. text_eq_sound (lower s) (text "json") (ground arith),
    λ h. rw (h) (unfold text_eq in refl),
  )
  hive_file_format_from_string_iff s avro = (
    λ h. text_eq_sound (lower s) (text "avro") (ground arith),
    λ h. rw (h) (unfold text_eq in refl),
  )

  abbrev known_avro : Text → Bool
  known_avro c =
      is_empty c
      || text_eq c (text "snappy")
      || text_eq c (text "deflate")
      || text_eq c (text "null")

  abbrev unknown_avro : Text → Bool
  unknown_avro c =
      not (is_empty c)
      && not (text_eq c (text "snappy"))
      && not (text_eq c (text "deflate"))
      && not (text_eq c (text "null"))

  -- The names of the codecs that a writer is given: for avro none, snappy, deflate or null; for parquet
  -- any but `none`; for text no compressed one but gzip and zstd.
  abbrev pub IsCodec : Compressions → HiveFileFormat → Text → Type 0
  IsCodec cs avro codec = known_avro codec ≡ true
  IsCodec cs parquet codec = text_eq codec (text "none") ≡ false
  IsCodec cs csv codec = (codec ≡ []) ⊎ (codec ≡ cs.to_string gzip) ⊎ (codec ≡ cs.to_string zstd)
  IsCodec cs json codec = (codec ≡ []) ⊎ (codec ≡ cs.to_string gzip) ⊎ (codec ≡ cs.to_string zstd)

  avro_codec-IsCodec :
      (cs : Compressions) (table : GlueTableInfo) (codec : Text)
      → avro_codec table ≡ ok codec
      → IsCodec cs avro codec
  unfolding avro_codec
  avro_codec-IsCodec cs table codec h =
      chosen (lower (get_codec_parameter table (text "avro.output.codec"))) h
    where
      chosen :
          (c : Text)
          → (if text_eq c (text "none") || text_eq c (text "uncompressed")
              then ok (text "null")
              else if unknown_avro c
              then err not_implemented
              else ok c)
            ≡ ok codec
          → known_avro codec ≡ true
      chosen c h = elim (Bool-cases (text_eq c (text "none") || text_eq c (text "uncompressed"))) [
        | inl none ↦ rw (← ok-injective (rw (none) at h)) (unfold text_eq in refl)
        | inr named ↦ elim (Bool-cases (unknown_avro c)) [
          | inl u ↦ absurd (cc (rw (named, u) at h))
          | inr u ↦ rw (← ok-injective (rw (named, u) at h)) (ground arith)
        ]
      ]

  parquet_codec-IsCodec :
      (cs : Compressions) (table : GlueTableInfo) → IsCodec cs parquet (parquet_codec table)
  unfolding parquet_codec text_eq
  parquet_codec-IsCodec cs table = ground arith

  get_text_compression-written :
      (cs : Compressions) (table : GlueTableInfo) (compression : FileCompressionType)
      → get_text_compression cs table ≡ ok compression
      → cs.is_compressed auto_detect ≡ false
      → (cs.is_compressed compression ≡ false) ⊎ (compression ≡ gzip) ⊎ (compression ≡ zstd)
  unfolding get_text_compression checked_compression
  get_text_compression-written cs table compression h a =
      elim (Bool-cases (is_empty (text_codec table))) [
        | inl empty ↦ inl (rw (← ok-injective (rw (empty) at h)) a)
        | inr named ↦
            after (cs.from_name (text_codec table)) (checked_compression cs) (rw (named) at h)
              (λ c e k. checked c k)
      ]
    where
      written :
          (c : FileCompressionType)
          → (cs.is_compressed c && not (is_written c)) ≡ false
          → (cs.is_compressed c ≡ false) ⊎ (c ≡ gzip) ⊎ (c ≡ zstd)
      written gzip k = inr (inl refl)
      written zstd k = inr (inr refl)
      written auto_detect k = inl a
      written (other name) k = inl (ground arith)

      checked :
          (c : FileCompressionType)
          → (if cs.is_compressed c && not (is_written c) then err not_implemented else ok c)
            ≡ ok compression
          → (cs.is_compressed compression ≡ false) ⊎ (compression ≡ gzip) ⊎ (compression ≡ zstd)
      checked c k = elim (Bool-cases (cs.is_compressed c && not (is_written c))) [
        | inl bad ↦ absurd (cc (rw (bad) at k))
        | inr good ↦ rw (← ok-injective (rw (good) at k)) (written c good)
      ]

  either :
      (b : Bool) (s t : Text)
      → (((if b then s else []) ≡ []) ⊎ ((if b then s else []) ≡ s) ⊎ ((if b then s else []) ≡ t))
        × (((if b then s else []) ≡ []) ⊎ ((if b then s else []) ≡ t) ⊎ ((if b then s else []) ≡ s))
  either true s t = (inr (inl refl), inr (inr refl))
  either false s t = (inl refl, inl refl)

  text-IsCodec :
      (cs : Compressions) (table : GlueTableInfo) (codec : Text)
      → cs.is_compressed auto_detect ≡ false
      → (get_text_compression cs table >>= λ compression. ok (written_name cs compression))
        ≡ ok codec
      → (codec ≡ []) ⊎ (codec ≡ cs.to_string gzip) ⊎ (codec ≡ cs.to_string zstd)
  unfolding written_name
  text-IsCodec cs table codec a h =
      after (get_text_compression cs table) _ h
        (λ c e k. rw (← ok-injective k) (named c (get_text_compression-written cs table c e a)))
    where
      named :
          (c : FileCompressionType)
          → (cs.is_compressed c ≡ false) ⊎ (c ≡ gzip) ⊎ (c ≡ zstd)
          → ((if cs.is_compressed c then cs.to_string c else []) ≡ [])
            ⊎ ((if cs.is_compressed c then cs.to_string c else []) ≡ cs.to_string gzip)
            ⊎ ((if cs.is_compressed c then cs.to_string c else []) ≡ cs.to_string zstd)
      named c (inl plain) = inl (rw (plain) refl)
      named c (inr (inl e)) =
          rw (e) (either (cs.is_compressed gzip) (cs.to_string gzip) (cs.to_string zstd)).0
      named c (inr (inr e)) =
          rw (e) (either (cs.is_compressed zstd) (cs.to_string zstd) (cs.to_string gzip)).1

  -- The codec that GetCodec gives a writer, where it gives one: the Avro writer gets no name, snappy,
  -- deflate or null; the Parquet writer never `none`; a text writer no name, or that of gzip or zstd.
  pub get_codec-IsCodec :
      (cs : Compressions) (table : GlueTableInfo) (format : HiveFileFormat) (codec : Text)
      → cs.is_compressed auto_detect ≡ false
      → get_codec cs table format ≡ ok codec
      → IsCodec cs format codec
  unfolding get_codec
  get_codec-IsCodec cs table parquet codec a h =
      rw (← ok-injective h) (parquet_codec-IsCodec cs table)
  get_codec-IsCodec cs table avro codec a h = avro_codec-IsCodec cs table codec h
  get_codec-IsCodec cs table csv codec a h = text-IsCodec cs table codec a h
  get_codec-IsCodec cs table json codec a h = text-IsCodec cs table codec a h
