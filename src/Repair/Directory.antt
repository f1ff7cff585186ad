-- ===== src/Repair/Directory.antt =====
-- HivePartitionDirectory of src/core/hive_location.cpp and ReadDiscoveredPartition of
-- src/functions/glue_repair_table.cpp. A Path is the list of its components.
use duckdb_aws_glue.Base.{
  ℕ, Bool, not, ◌≡◌, ◌≢◌, List, [], ◌∷◌, ◌++◌, Text, text, text_eq, ◌==◌, AllPass, take_while,
  drop_while, length, ltb, if◌then◌else◌, Option, none, some, Outcome, ok, err,
}
use duckdb_aws_glue.DuckDb.{DuckDb, ci_equals, join, default_partition_name}
use duckdb_aws_glue.Types.Logical.{LogicalType}
use duckdb_aws_glue.Types.Columns.{PartitionValue, null, verbatim, typed, partition_value}

abbrev pub not_slash : ℕ → Bool
not_slash c = not (c == b'/')

abbrev pub not_equals : ℕ → Bool
not_equals c = not (c == b'=')

abbrev pub AllComponents : List Text → Type 0
AllComponents [] = Unit
AllComponents (c ∷ cs) = AllPass not_slash c × (c ≢ []) × AllComponents cs

-- DuckDB's HivePartitioning::Escape, EscapeValue and Unescape, and StringUtil::Split at slashes, with
-- what is documented of them.
pub record HivePartitioning ⦃db : DuckDb⦄ : Type 0 where
  pub escape : Text → Text
  pub escape_value : Text → Text
  pub unescape : Text → Outcome Text
  pub split : Text → List Text
  pub unescape-escape : (s : Text) → unescape (escape s) ≡ ok s
  pub unescape-escape_value : (s : Text) → unescape (escape_value s) ≡ ok s
  pub unescape-default : unescape default_partition_name ≡ ok default_partition_name
  pub escape-not_slash : (s : Text) → AllPass not_slash (escape s)
  pub escape-not_equals : (s : Text) → AllPass not_equals (escape s)
  pub escape_value-not_slash : (s : Text) → AllPass not_slash (escape_value s)
  pub default-not_slash : AllPass not_slash default_partition_name
  pub split-join : (cs : List Text) → cs ≢ [] → AllComponents cs → split (join cs (text "/")) ≡ cs

module _ ⦃db : DuckDb⦄ (hive : HivePartitioning) where
  abbrev pub directory_value : Text → Text
  directory_value value =
      if text_eq value default_partition_name then value else hive.escape_value value

  -- HivePartitionDirectory
  unfoldable pub hive_partition_directory : List Text → List Text → List Text
  hive_partition_directory (key ∷ keys) (value ∷ values) =
      (hive.escape key ++ (text "=" ++ directory_value value))
      ∷ hive_partition_directory keys values
  hive_partition_directory _ _ = []

  -- a key of the table with its type
  abbrev pub Key : Type 0
  Key = Text × LogicalType

  module _ {V : Type 0} (cast : LogicalType → Text → Option V) (to_string : V → Text) where
    -- as glue_add_partition stores a value
    abbrev pub stored_value : Text → PartitionValue V → Text
    stored_value value null = value
    stored_value value (verbatim s) = s
    stored_value value (typed v) = to_string v

    abbrev pub stored_or_none : Text → Outcome (PartitionValue V) → Option Text
    stored_or_none value (err e) = none
    stored_or_none value (ok v) = some (stored_value value v)

    abbrev pub read_value : LogicalType → Outcome Text → Option Text
    read_value type (err e) = none
    read_value type (ok value) = stored_or_none value (partition_value cast value type)

    abbrev pub read_named : Key → Outcome Text → Outcome Text → Option Text
    read_named key (err e) value = none
    read_named (key, type) (ok name) value =
        if ci_equals name key then read_value type value else none

    -- `name=value` of a directory, cut at the first equals sign
    abbrev pub read_cut : Key → Text → Text → Option Text
    read_cut key before [] = none
    read_cut key before (c ∷ rest) = read_named key (hive.unescape before) (hive.unescape rest)

    unfoldable pub read_component : Key → Text → Option Text
    read_component key component =
        read_cut key (take_while not_equals component) (drop_while not_equals component)

    abbrev pub with_component :
        Text → Option Text → Option (List Text × List Text) → Option (List Text × List Text)
    with_component component none rest = none
    with_component component (some value) none = none
    with_component component (some value) (some (values, directory)) =
        some (value ∷ values, component ∷ directory)

    unfoldable pub read_components : List Key → List Text → Option (List Text × List Text)
    unfolding read_component
    read_components [] components = some ([], [])
    read_components (key ∷ keys) [] = none
    read_components (key ∷ keys) (component ∷ components) =
        with_component component (read_component key component) (read_components keys components)

    abbrev pub as_directory : Option (List Text × List Text) → Option (List Text × Text)
    as_directory none = none
    as_directory (some (values, directory)) = some (values, join directory (text "/"))

    -- ReadDiscoveredPartition
    unfoldable pub read_discovered_partition : List Key → Text → Option (List Text × Text)
    unfolding read_components
    read_discovered_partition keys relative_directory =
        let components = hive.split relative_directory in
        if ltb (length components) (length keys)
        then none
        else as_directory (read_components keys components)
