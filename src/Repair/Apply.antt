-- ===== src/Repair/Apply.antt =====
-- GlueRepairTableApply of src/functions/glue_repair_table.cpp, and IsDataFile of
-- src/planning/hive_multi_file_reader.cpp. The files below the root are those of the listing, in its
-- order; a set or map is the list of its elements, a map of partitions ordered by their values.
use duckdb_aws_glue.Base.{
  ℕ, Bool, true, false, not, ◌&&◌, ◌||◌, List, [], ◌∷◌, ◌++◌, Text, text, text_eq, ◌==◌, ltb, any,
  is_empty, length, drop, if◌then◌else◌, Option, none, some, Outcome, ok,
}
use duckdb_aws_glue.DuckDb.{DuckDb, starts_with, r_trim_of}
use duckdb_aws_glue.Types.Logical.{LogicalType}
use duckdb_aws_glue.Partitions.Service.{
  emplace, Values, mem, GluePartitionInput, GlueService, Run, and_then, check_writable,
}
use duckdb_aws_glue.Partitions.Segments.{GluePartitionInfo}
use duckdb_aws_glue.Partitions.Create.{batch_create_partitions}
use duckdb_aws_glue.Repair.Directory.{HivePartitioning, Key, read_discovered_partition}

-- OpenFileInfo, with the size where the listing has one
pub record OpenFileInfo : Type 0 where
  pub path : Text
  pub size : Option ℕ

abbrev pub has_rows : Option ℕ → Bool
has_rows none = true
has_rows (some n) = ltb 0 n

abbrev pub is_hidden : Text → Bool
is_hidden [] = true
is_hidden (c ∷ s) = c == b'_' || c == b'.'

abbrev pub last_of : Text → List Text → Text
last_of x [] = x
last_of x (y ∷ l) = last_of y l

abbrev pub mem_text : Text → List Text → Bool
mem_text t [] = false
mem_text t (u ∷ us) = text_eq u t || mem_text t us

-- what precedes the last slash, where there is one
unfoldable pub directory_of : Text → Option Text
directory_of [] = none
directory_of (c ∷ s) =
    let rest = directory_of s in
    elim rest [ some d ↦ some (c ∷ d) | none ↦ if c == b'/' then some [] else none ]

abbrev pub Discovered : Type 0
Discovered = List (Values × Text)

-- the directories seen so far and the partitions discovered in them
abbrev pub Seen : Type 0
Seen = List Text × Discovered

abbrev pub inputs_of : Discovered → List GluePartitionInput
inputs_of [] = []
inputs_of ((v, l) ∷ rest) = record { values = v; location = l } ∷ inputs_of rest

abbrev pub existing_values : List GluePartitionInfo → List Values
existing_values [] = []
existing_values (p ∷ ps) = p.values ∷ existing_values ps

module _ ⦃db : DuckDb⦄ (hive : HivePartitioning) (ends_with : Text → Text → Bool) where
  abbrev pub are_data_components : List Text → Bool
  are_data_components [] = false
  are_data_components (c ∷ cs) =
      not (any is_hidden (c ∷ cs)) && not (ends_with (last_of c cs) (text "_$folder$"))

  -- IsDataFile
  unfoldable pub is_data_file : OpenFileInfo → Text → Bool
  is_data_file file prefix =
      starts_with file.path prefix
      && are_data_components (hive.split (drop (length prefix) file.path))
      && has_rows file.size

  abbrev pub existing_locations : List GluePartitionInfo → List Text
  existing_locations [] = []
  existing_locations (p ∷ ps) = r_trim_of p.location (text "/") ∷ existing_locations ps

  module _ {V : Type 0} (cast : LogicalType → Text → Option V) (to_string : V → Text)
      (keys : List (Key hive)) (root_prefix : Text) (existing : List GluePartitionInfo) where
    -- a directory not seen before, with what ReadDiscoveredPartition says of it
    unfoldable pub with_directory : Option (List Text × Text) → Discovered → Discovered
    unfolding emplace
    with_directory none discovered = discovered
    with_directory (some (values, partition_directory)) discovered =
        let location = root_prefix ++ partition_directory in
        if mem values (existing_values existing) || mem_text location (existing_locations existing)
        then discovered
        else emplace values location discovered

    unfoldable pub discover_in : Option Text → Seen → Seen
    unfolding with_directory
    discover_in none (seen, discovered) = (seen, discovered)
    discover_in (some directory) (seen, discovered) =
        if ltb (length directory) (length root_prefix)
        then (seen, discovered)
        else if mem_text directory seen
        then (seen, discovered)
        else (
          directory ∷ seen,
          with_directory
              (read_discovered_partition hive cast to_string keys
                (drop (length root_prefix) directory))
              discovered,
        )

    -- the callback for each listed file
    unfoldable pub discover : List OpenFileInfo → Seen → Seen
    unfolding discover_in is_data_file
    discover [] state = state
    discover (file ∷ files) state = discover files (
        if is_data_file file root_prefix then discover_in (directory_of file.path) state else state)

  -- the partitions to add
  unfoldable pub discovered_partitions :
      {V : Type 0}
      → (LogicalType → Text → Option V)
      → (V → Text)
      → List (Key hive)
      → Text
      → List GluePartitionInfo
      → List OpenFileInfo
      → List GluePartitionInput
  unfolding discover
  discovered_partitions cast to_string keys root existing files =
      inputs_of (discover cast to_string keys (root ++ text "/") existing files ([], [])).1

  -- GlueRepairTableApply; `fetched` is what GetPartitions gives.
  unfoldable pub glue_repair_table_apply :
      {V S : Type 0}
      → (LogicalType → Text → Option V)
      → (V → Text)
      → GlueService S
      → (Text → Option ℕ)
      → Option Text
      → Bool
      → List (Key hive)
      → Text
      → Outcome (List GluePartitionInfo)
      → List OpenFileInfo
      → Run S (List GluePartitionInput)
  unfolding discovered_partitions
  glue_repair_table_apply cast to_string glue cast_ubigint setting read_only keys root fetched files
        s =
      and_then (check_writable read_only, s)
        (λ u s₁.
          and_then (fetched, s₁)
            (λ existing s₂.
              let added = discovered_partitions cast to_string keys root existing files in
              if is_empty added
              then (ok added, s₂)
              else and_then (batch_create_partitions glue cast_ubigint setting read_only added s₂)
                  (λ found s₃. (ok added, s₃))))
