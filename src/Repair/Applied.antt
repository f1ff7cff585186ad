-- ===== src/Repair/Applied.antt =====
-- What glue_repair_table adds (src/functions/glue_repair_table.cpp).
use mathlib.Core.Path.{subst}
use duckdb_aws_glue.Base.{
  ok-injective, ℕ, Bool, true, false, ◌≡◌, ap, List, [], ◌∷◌, ◌++◌, Text, text, ltb, length, drop,
  is_empty, if◌then◌else◌, Option, none, some, ok, Bool-cases, inl, inr,
}
use duckdb_aws_glue.DuckDb.{DuckDb}
use duckdb_aws_glue.Types.Logical.{LogicalType}
use duckdb_aws_glue.Partitions.Service.{
  values_lt, emplace, Values, values_eq, mem, has_input, GluePartitionInput, GlueService,
  Documented, and_then,
}
use duckdb_aws_glue.Partitions.Segments.{GluePartitionInfo}
use duckdb_aws_glue.Partitions.Answers.{then_after}
use duckdb_aws_glue.Partitions.Create.{batch_create_partitions}
use duckdb_aws_glue.Partitions.Registered.{batch_create_partitions-there}
use duckdb_aws_glue.Repair.Directory.{HivePartitioning, Key, read_discovered_partition}
use duckdb_aws_glue.Repair.Apply.{
  OpenFileInfo, mem_text, directory_of, Discovered, Seen, inputs_of, existing_values, is_data_file,
  existing_locations, with_directory, discover_in, discover, discovered_partitions,
  glue_repair_table_apply,
}

module _ ⦃db : DuckDb⦄ (hive : HivePartitioning) (ends_with : Text → Text → Bool) where
  -- No entry has values or a location that a partition has already.
  abbrev pub AllNew : List GluePartitionInfo → List GluePartitionInput → Type 0
  AllNew existing [] = Unit
  AllNew existing (p ∷ ps) =
      (mem p.values (existing_values existing) ≡ false)
      × (mem_text p.location (existing_locations hive ends_with existing) ≡ false)
      × AllNew existing ps

  emplace-AllNew :
      (existing : List GluePartitionInfo) (values : Values) (location : Text)
      (discovered : Discovered)
      → mem values (existing_values existing) ≡ false
      → mem_text location (existing_locations hive ends_with existing) ≡ false
      → AllNew existing (inputs_of discovered)
      → AllNew existing (inputs_of (emplace values location discovered))
  unfolding emplace
  emplace-AllNew existing values location [] a b h = (a, b, tt)
  emplace-AllNew existing values location ((v, l) ∷ rest) a b h =
      elim (Bool-cases (values_eq v values)) [
        | inl same ↦ rw (same) h
        | inr differ ↦ elim (Bool-cases (values_lt values v)) [
          | inl before ↦ rw (differ, before) (a, b, h)
          | inr later ↦
              rw (differ, later) (h.0, h.1, emplace-AllNew existing values location rest a b h.2)
        ]
      ]

  module _ {V : Type 0} (cast : LogicalType → Text → Option V) (to_string : V → Text)
      (keys : List (Key hive)) (root_prefix : Text) (existing : List GluePartitionInfo) where
    with_directory-AllNew :
        (found : Option (List Text × Text)) (discovered : Discovered)
        → AllNew existing (inputs_of discovered)
        → AllNew existing (
            inputs_of (
              with_directory hive ends_with cast to_string keys root_prefix existing found
                discovered))
    unfolding with_directory
    with_directory-AllNew none discovered h = h
    with_directory-AllNew (some (values, directory)) discovered h =
        elim (Bool-cases (mem values (existing_values existing))) [
          | inl old ↦ rw (old) h
          | inr new ↦
              elim (Bool-cases (
                mem_text (root_prefix ++ directory) (existing_locations hive ends_with existing))) [
                  | inl old ↦ rw (new, old) h
                  | inr free ↦
                      rw (new, free)
                        (emplace-AllNew existing values (root_prefix ++ directory) discovered new
                          free h)
                ]
        ]

    discover_in-AllNew :
        (directory : Option Text) (state : Seen)
        → AllNew existing (inputs_of state.1)
        → AllNew existing (
            inputs_of
              (discover_in hive ends_with cast to_string keys root_prefix existing directory
                state).1)
    unfolding discover_in
    discover_in-AllNew none (seen, discovered) h = h
    discover_in-AllNew (some directory) (seen, discovered) h =
        elim (Bool-cases (ltb (length directory) (length root_prefix))) [
          | inl above ↦ rw (above) h
          | inr below ↦ elim (Bool-cases (mem_text directory seen)) [
            | inl old ↦ rw (below, old) h
            | inr new ↦
                rw (below, new)
                  (with_directory-AllNew
                    (read_discovered_partition hive cast to_string keys
                      (drop (length root_prefix) directory))
                    discovered h)
          ]
        ]

    discover-AllNew :
        (files : List OpenFileInfo) (state : Seen)
        → AllNew existing (inputs_of state.1)
        → AllNew existing (
            inputs_of
              (discover hive ends_with cast to_string keys root_prefix existing files state).1)
    unfolding discover
    discover-AllNew [] state h = h
    discover-AllNew (file ∷ files) state h = discover-AllNew files _ (
        chosen (is_data_file hive ends_with file root_prefix) _ state
          (discover_in-AllNew (directory_of file.path) state h) h)
      where
        chosen :
            (b : Bool) (x y : Seen)
            → AllNew existing (inputs_of x.1)
            → AllNew existing (inputs_of y.1)
            → AllNew existing (inputs_of (if b then x else y).1)
        chosen true x y h k = h
        chosen false x y h k = k

  glue_repair_table_apply-both :
      {V S : Type 0} (cast : LogicalType → Text → Option V) (to_string : V → Text)
      (glue : GlueService S) (exists : S → Values → Bool)
      → Documented glue exists
      → (cast_ubigint : Text → Option ℕ) (setting : Option Text) (read_only : Bool)
        (keys : List (Key hive)) (root : Text) (existing : List GluePartitionInfo)
        (files : List OpenFileInfo) (added : List GluePartitionInput) (s s' : S)
      → glue_repair_table_apply hive ends_with cast to_string glue cast_ubigint setting read_only
          keys root
          (ok existing)
          files
          s
        ≡ (ok added, s')
      → AllNew existing added × ((v : Values) → has_input v added ≡ true → exists s' v ≡ true)
  unfolding glue_repair_table_apply
  glue_repair_table_apply-both cast to_string glue exists docs cast_ubigint setting true keys root
        existing files added s s' h =
      absurd (cc (ap (λ p. p.0) h))
  glue_repair_table_apply-both cast to_string glue exists docs cast_ubigint setting false keys root
        existing files added s s' h =
      result (discovered_partitions hive ends_with cast to_string keys root existing files)
        (unfold discovered_partitions in
          discover-AllNew cast to_string keys (root ++ text "/") existing files ([], []) tt)
        h
    where
      result :
          (ps : List GluePartitionInput)
          → AllNew existing ps
          → (if is_empty ps
              then (ok ps, s)
              else and_then
                  (batch_create_partitions glue cast_ubigint setting false ps s)
                  (λ found s₃. (ok ps, s₃)))
            ≡ (ok added, s')
          → AllNew existing added × ((v : Values) → has_input v added ≡ true → exists s' v ≡ true)
      result [] new h =
          subst
            (λ ps. AllNew existing ps × ((v : Values) → has_input v ps ≡ true → exists s' v ≡ true))
            (ok-injective (ap (λ p. p.0) h)) (new, λ v m. absurd (cc m))
      result (p ∷ ps) new h =
          then_after (batch_create_partitions glue cast_ubigint setting false (p ∷ ps) s) _ h
            (λ found s₃ h₁ h₂.
              subst
                (λ qs.
                  AllNew existing qs × ((v : Values) → has_input v qs ≡ true → exists s' v ≡ true))
                (ok-injective (ap (λ p. p.0) h₂))
                (
                  new,
                  λ v m.
                      subst (λ t. exists t v ≡ true) (ap (λ p. p.1) h₂)
                        (batch_create_partitions-there glue exists docs cast_ubigint setting false
                          (p ∷ ps) found s s₃ h₁ v m),
                ))

  -- glue_repair_table, where it returns, has added only partitions whose values and whose location no
  -- partition had that Glue listed before, and every partition that it has added is registered in Glue.
  pub glue_repair_table_apply-there :
      {V S : Type 0} (cast : LogicalType → Text → Option V) (to_string : V → Text)
      (glue : GlueService S) (exists : S → Values → Bool)
      → Documented glue exists
      → (cast_ubigint : Text → Option ℕ) (setting : Option Text) (read_only : Bool)
        (keys : List (Key hive)) (root : Text) (existing : List GluePartitionInfo)
        (files : List OpenFileInfo) (added : List GluePartitionInput) (s s' : S)
      → glue_repair_table_apply hive ends_with cast to_string glue cast_ubigint setting read_only
          keys root
          (ok existing)
          files
          s
        ≡ (ok added, s')
      → (v : Values) → has_input v added ≡ true
      → AllNew existing added × (exists s' v ≡ true)
  glue_repair_table_apply-there cast to_string glue exists docs cast_ubigint setting read_only keys
        root existing files added s s' h v m =
      let (new, there) =
        glue_repair_table_apply-both cast to_string glue exists docs cast_ubigint setting read_only
          keys root existing files added s s' h in
      (new, there v m)
