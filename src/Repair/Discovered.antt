-- ===== src/Repair/Discovered.antt =====
-- glue_repair_table finds the partitions that a writer put into their directories
-- (src/functions/glue_repair_table.cpp, src/core/hive_location.cpp).
use duckdb_aws_glue.Base.{
  ℕ, ◌+◌, ◌≤◌, Bool, true, false, ◌≡◌, ◌≢◌, refl, arith, ◌∙◌, List, [], ◌∷◌, ◌++◌, Text, text,
  text_eq, text_eq_refl, text_eq_sound, AllPass, take_while-append, drop_while-append, length,
  length-append, ltb, Option, some, ok, Bool-cases, inl, inr,
}
use duckdb_aws_glue.DuckDb.{DuckDb, ci_equals, join, default_partition_name}
use duckdb_aws_glue.Types.Logical.{LogicalType}
use duckdb_aws_glue.Types.Columns.{PartitionValue, partition_value}
use duckdb_aws_glue.Repair.Directory.{
  HivePartitioning, Key, not_slash, not_equals, AllComponents, directory_value,
  hive_partition_directory, stored_value, read_component, read_components,
  read_discovered_partition,
}

module _ ⦃db : DuckDb⦄ (hive : HivePartitioning) where
  ci_equals_refl : (s : Text) → ci_equals s s ≡ true
  ci_equals_refl s = db.ci_equals_lem s s ∙ text_eq_refl (db.lower s)

  unescape-directory_value : (value : Text) → hive.unescape (directory_value hive value) ≡ ok value
  unescape-directory_value value = elim (Bool-cases (text_eq value default_partition_name)) [
    | inl d ↦
        let same : value ≡ default_partition_name = text_eq_sound value default_partition_name d in
        rw (d, same) hive.unescape-default
    | inr v ↦ rw (v) (hive.unescape-escape_value value)
  ]

  AllPass-append : (p : ℕ → Bool) (s t : Text) → AllPass p s → AllPass p t → AllPass p (s ++ t)
  AllPass-append p [] t h k = k
  AllPass-append p (c ∷ s) t h k = (h.0, AllPass-append p s t h.1 k)

  directory_value-not_slash : (value : Text) → AllPass not_slash (directory_value hive value)
  directory_value-not_slash value = elim (Bool-cases (text_eq value default_partition_name)) [
    | inl d ↦
        let same : value ≡ default_partition_name = text_eq_sound value default_partition_name d in
        rw (d, same) hive.default-not_slash
    | inr v ↦ rw (v) (hive.escape_value-not_slash value)
  ]

  abbrev names : List (Key hive) → List Text
  names [] = []
  names ((name, type) ∷ keys) = name ∷ names keys

  append-cons-ne-nil : (s t : Text) (c : ℕ) → s ++ (c ∷ t) ≢ []
  append-cons-ne-nil [] t c h = cc
  append-cons-ne-nil (d ∷ s) t c h = cc

  hive_partition_directory-AllComponents :
      (keys values : List Text) → AllComponents (hive_partition_directory hive keys values)
  unfolding hive_partition_directory
  hive_partition_directory-AllComponents [] values = tt
  hive_partition_directory-AllComponents (key ∷ keys) [] = tt
  hive_partition_directory-AllComponents (key ∷ keys) (value ∷ values) = (
    AllPass-append not_slash (hive.escape key) (b'=' ∷ directory_value hive value)
        (hive.escape-not_slash key) (refl, directory_value-not_slash value),
    append-cons-ne-nil (hive.escape key) (directory_value hive value) b'=',
    hive_partition_directory-AllComponents keys values,
  )

  AllComponents-append :
      (cs ds : List Text) → AllComponents cs → AllComponents ds → AllComponents (cs ++ ds)
  AllComponents-append [] ds h k = k
  AllComponents-append (c ∷ cs) ds h k = (h.0, h.1, AllComponents-append cs ds h.2 k)

  module _ {V : Type 0} (cast : LogicalType → Text → Option V) (to_string : V → Text) where
    -- Each value is a value of its key's type, in the form in which glue_add_partition stores it.
    abbrev pub AreStored : List (Key hive) → List Text → Type 0
    AreStored [] [] = Unit
    AreStored ((name, type) ∷ keys) (value ∷ values) =
        ((v : PartitionValue V) × (partition_value cast value type ≡ ok v)
          × (stored_value hive cast to_string value v ≡ value))
        × AreStored keys values
    AreStored _ _ = ⊥

    read_component-written :
        (name : Text) (type : LogicalType) (value : Text) (v : PartitionValue V)
        → partition_value cast value type ≡ ok v
        → stored_value hive cast to_string value v ≡ value
        → read_component hive cast to_string
            (name, type)
            (hive.escape name ++ (text "=" ++ directory_value hive value))
          ≡ some value
    unfolding read_component
    read_component-written name type value v h k =
        rw
          (
            take_while-append not_equals (hive.escape name) (b'=' ∷ directory_value hive value)
                (hive.escape-not_equals name) refl,
            drop_while-append not_equals (hive.escape name) (b'=' ∷ directory_value hive value)
                (hive.escape-not_equals name) refl,
            hive.unescape-escape name,
            ci_equals_refl name,
            unescape-directory_value value,
            h,
            k,
          )
          refl

    read_components-written :
        (keys : List (Key hive)) (values more : List Text)
        → AreStored keys values
        → read_components hive cast to_string keys
            (hive_partition_directory hive (names keys) values ++ more)
          ≡ some (values, hive_partition_directory hive (names keys) values)
    unfolding read_components hive_partition_directory
    read_components-written [] [] more h = refl
    read_components-written [] (value ∷ values) more h = absurd h
    read_components-written ((name, type) ∷ keys) [] more h = absurd h
    read_components-written ((name, type) ∷ keys) (value ∷ values) more h =
        rw
          (
            read_component-written name type value h.0.0 h.0.1 h.0.2,
            read_components-written keys values more h.1,
          )
          refl

    length-written :
        (keys : List (Key hive)) (values : List Text)
        → AreStored keys values
        → length (hive_partition_directory hive (names keys) values) ≡ length keys
    unfolding hive_partition_directory
    length-written [] [] h = refl
    length-written [] (value ∷ values) h = absurd h
    length-written ((name, type) ∷ keys) [] h = absurd h
    length-written ((name, type) ∷ keys) (value ∷ values) h =
        omega (arith, length-written keys values h.1)

    -- A file in the directory of a partition, or anywhere below it, is found to be one of that partition:
    -- ReadDiscoveredPartition reads from its directory the values that HivePartitionDirectory was given,
    -- and the partition's directory without what is below it. The table has a key, and each value is one of
    -- its key's type in the form in which it is stored.
    pub read_discovered_partition-hive_partition_directory :
        (key : Key hive) (keys : List (Key hive)) (values below : List Text)
        → AreStored (key ∷ keys) values
        → AllComponents below
        → read_discovered_partition hive cast to_string
            (key ∷ keys)
            (join (hive_partition_directory hive (names (key ∷ keys)) values ++ below) (text "/"))
          ≡ some
              (values, join (hive_partition_directory hive (names (key ∷ keys)) values) (text "/"))
    unfolding read_discovered_partition
    read_discovered_partition-hive_partition_directory key keys values below h k =
        let directory = hive_partition_directory hive (names (key ∷ keys)) values in
        let long : length directory ≡ length (key ∷ keys) = length-written (key ∷ keys) values h in
        let all : length (directory ++ below) ≡ length directory + length below =
          length-append directory below in
        let some_component : directory ++ below ≢ [] =
          λ e. absurd (nonempty (directory ++ below) e (omega (arith, long, all))) in
        let cut : hive.split (join (directory ++ below) (text "/")) ≡ directory ++ below =
          hive.split-join (directory ++ below) some_component (
            AllComponents-append directory below
              (hive_partition_directory-AllComponents (names (key ∷ keys)) values) k) in
        let enough : ltb (length (directory ++ below)) (length (key ∷ keys)) ≡ false =
          ground (arith, long, all) in
        rw (cut, enough, read_components-written (key ∷ keys) values below h) refl
      where
        nonempty : (cs : List Text) → cs ≡ [] → 1 ≤ length cs → ⊥
        nonempty [] e n = omega arith
        nonempty (c ∷ cs) e n = cc
