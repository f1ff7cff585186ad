-- ===== src/Tests/RepairTests.antt =====
-- An instance of the theorem about partition directories.
use duckdb_aws_glue.Base.{
  ◌≡◌, refl, List, [], ◌∷◌, ◌++◌, Text, text, text_eq, Option, none, some, if◌then◌else◌,
}
use duckdb_aws_glue.DuckDb.{join}
use duckdb_aws_glue.DuckDb.Ascii.{ascii}
use duckdb_aws_glue.Types.Logical.{LogicalType, varchar, integer}
use duckdb_aws_glue.Types.TypeId.{id, is_varchar}
use duckdb_aws_glue.Types.Columns.{partition_value, partition_value_is_null, typed, verbatim}
use duckdb_aws_glue.Repair.Directory.{hive_partition_directory, read_discovered_partition}
use duckdb_aws_glue.Repair.Discovered.{
  AreStored, read_discovered_partition-hive_partition_directory,
}
use duckdb_aws_glue.Tests.Percent.{percent}
use duckdb_aws_glue.Base.{ok, ℕ, Bool, true, false, take, drop, take_while, drop_while}
use duckdb_aws_glue.DuckDb.{lower_byte}
use duckdb_aws_glue.Partitions.Service.{
  emplace, values_eq, GluePartitionInput, is_transient_partition_error,
}
use duckdb_aws_glue.Partitions.Create.{
  batch_create_partitions, create_batches, create_attempts, create_attempt, send_inputs, sent_of,
  injected_errors, fails, find_sent, read_errors, creations_left,
}
use duckdb_aws_glue.Repair.Directory.{read_components, read_component}
use duckdb_aws_glue.Repair.Apply.{
  OpenFileInfo, is_data_file, directory_of, with_directory, discover_in, discover,
  discovered_partitions, glue_repair_table_apply,
}
use duckdb_aws_glue.Repair.Applied.{AllNew, glue_repair_table_apply-there}
use duckdb_aws_glue.Tests.Throttled.{exists, throttled, throttled-Documented}

abbrev cast : LogicalType → Text → Option Text
cast type s = if text_eq s (text "7") then some s else none

abbrev same : Text → Text
same s = s

-- city=a%2Fb/day=7, with a directory below it
abbrev keys : List (Text × LogicalType)
keys = (text "city", varchar) ∷ (text "day", integer) ∷ []

abbrev values : List Text
values = text "a/b" ∷ text "7" ∷ []

directory :
    join (hive_partition_directory percent (text "city" ∷ text "day" ∷ []) values) (text "/")
    ≡ text "city=a%2Fb/day=7"
unfolding hive_partition_directory percent ascii text_eq
directory = refl

stored : AreStored percent cast same keys values
unfolding partition_value partition_value_is_null id is_varchar text_eq ascii
stored = ((verbatim (text "a/b"), refl, refl), ((typed (text "7"), refl, refl), tt))

read_discovered_partition-hive_partition_directory_example :
    read_discovered_partition percent cast same keys (
      join
        (hive_partition_directory percent (text "city" ∷ text "day" ∷ []) values
          ++ (text "part" ∷ []))
        (text "/"))
    ≡ some (
      values,
      join (hive_partition_directory percent (text "city" ∷ text "day" ∷ []) values) (text "/"),
    )
read_discovered_partition-hive_partition_directory_example =
    read_discovered_partition-hive_partition_directory percent cast same (text "city", varchar)
      ((text "day", integer) ∷ []) values (text "part" ∷ []) stored
      ((refl, (refl, (refl, (refl, tt)))), (λ e. cc), tt)

abbrev ends_with : Text → Text → Bool
ends_with s suffix = false

abbrev files : List OpenFileInfo
files = (record { path = text "r/city=a%2Fb/day=7/f"; size = none }) ∷ []

abbrev added : List GluePartitionInput
added = (record { values = values; location = text "r/city=a%2Fb/day=7" }) ∷ []

abbrev no_cast : Text → Option ℕ
no_cast s = none

repaired :
    glue_repair_table_apply percent ends_with cast same throttled no_cast none false keys
      (text "r")
      (ok [])
      files
      (true, [])
    ≡ (ok added, (true, values ∷ []))
unfolding glue_repair_table_apply discovered_partitions discover discover_in with_directory emplace
    is_data_file directory_of read_discovered_partition read_components read_component
    batch_create_partitions create_batches create_attempts create_attempt send_inputs sent_of
    injected_errors fails find_sent read_errors creations_left is_transient_partition_error
    throttled values_eq text_eq take drop take_while drop_while partition_value
    partition_value_is_null id is_varchar percent ascii lower_byte
repaired = refl

glue_repair_table_apply-there_example :
    AllNew percent ends_with [] added × (exists (true, values ∷ []) values ≡ true)
glue_repair_table_apply-there_example =
    glue_repair_table_apply-there percent ends_with cast same throttled exists throttled-Documented
      no_cast none false keys (text "r") [] files added (true, []) (true, values ∷ []) repaired
      values (unfold values_eq text_eq in refl)
