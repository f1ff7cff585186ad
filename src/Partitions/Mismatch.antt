-- ===== src/Partitions/Mismatch.antt =====
-- FindPartitionColumn and FindColumnTypeMismatch of src/core/glue_info.cpp: whether the files of a
-- partition, whose columns Glue keeps with it, have the types of the table's columns. The column that
-- the code looks up by its index is passed with the index.
use mathlib.Core.Path.{subst}
use duckdb_aws_glue.Base.{
  ◌↔◌, ℕ, zero, suc, ◌+◌, ◌<◌, ◌≡◌, refl, Bool, true, false, List, [], ◌∷◌, Text, if◌then◌else◌,
  Option, none, some, arith, Bool-cases, inl, inr, get_elem?,
}
use duckdb_aws_glue.DuckDb.{DuckDb, ci_equals}
use duckdb_aws_glue.Types.TypeId.{TypeEquality}
use duckdb_aws_glue.Types.Columns.{same_column_type}
use duckdb_aws_glue.Table.Info.{GlueColumn}

module _ ⦃db : DuckDb⦄ where
  -- the first column that has the name, but for case
  unfoldable pub find_column : Text → List GlueColumn → Option GlueColumn
  find_column name [] = none
  find_column name (column ∷ columns) =
      if ci_equals column.name name then some column else find_column name columns

  -- FindPartitionColumn
  unfoldable pub find_partition_column : List GlueColumn → GlueColumn → ℕ → Bool → Option GlueColumn
  unfolding find_column get_elem?
  find_partition_column partition_columns column index by_position =
      if by_position
      then get_elem? partition_columns index
      else find_column column.name partition_columns

  -- whether the partition has the column with another type
  abbrev pub differs : ⦃eq : TypeEquality⦄ → GlueColumn → Option GlueColumn → Bool
  differs column none = false
  differs column (some partition_column) =
      if same_column_type column.type partition_column.type then false else true

  -- the loop of FindColumnTypeMismatch from an index on
  unfoldable pub mismatch_from :
      ⦃eq : TypeEquality⦄ → List GlueColumn → Bool → ℕ → List GlueColumn → Option ℕ
  unfolding find_partition_column
  mismatch_from partition_columns by_position index [] = none
  mismatch_from partition_columns by_position index (column ∷ columns) =
      if differs column (find_partition_column partition_columns column index by_position)
      then some index
      else mismatch_from partition_columns by_position (index + 1) columns

  -- FindColumnTypeMismatch
  unfoldable pub find_column_type_mismatch :
      ⦃eq : TypeEquality⦄ → List GlueColumn → List GlueColumn → Bool → Option ℕ
  unfolding mismatch_from
  find_column_type_mismatch partition_columns table_columns by_position =
      mismatch_from partition_columns by_position 0 table_columns

  module _ ⦃eq : TypeEquality⦄ (partition_columns : List GlueColumn) (by_position : Bool) where
    -- whether the partition has a column of the table, at an index, with another type
    abbrev pub differs_at : GlueColumn → ℕ → Bool
    differs_at column index =
        differs column (find_partition_column partition_columns column index by_position)

    -- the first `n` columns, the first of which has index `index`, agree
    abbrev pub Agree : ℕ → ℕ → List GlueColumn → Type 0
    Agree index n columns =
        (m position : ℕ) (column : GlueColumn)
        → m < n
        → position ≡ index + m
        → get_elem? columns m ≡ some column
        → differs_at column position ≡ false

    Agree-cons :
        (index n : ℕ) (c : GlueColumn) (columns : List GlueColumn)
        → differs_at c index ≡ false
        → Agree (index + 1) n columns
        → Agree index (suc n) (c ∷ columns)
    unfolding get_elem?
    Agree-cons index n c columns d all zero position column l s e =
        let same : c ≡ column = cc e in
        let here : position ≡ index = omega (arith, s) in rw (here, ← same) d
    Agree-cons index n c columns d all (suc m) position column l s e =
        all m position column (omega arith) (omega (arith, s)) e

    mismatch_from-none :
        (index : ℕ) (columns : List GlueColumn)
        → mismatch_from partition_columns by_position index columns ≡ none
        → (n : ℕ) → Agree index n columns
    unfolding mismatch_from get_elem?
    mismatch_from-none index [] h n m position column l s e = absurd (cc e)
    mismatch_from-none index (c ∷ columns) h zero m position column l s e = absurd (omega arith)
    mismatch_from-none index (c ∷ columns) h (suc n) m position column l s e =
        elim (Bool-cases (differs_at c index)) [
          | inl d ↦ absurd (cc (rw (d) at h))
          | inr d ↦
              Agree-cons index n c columns d
                (mismatch_from-none (index + 1) columns (rw (d) at h) n) m position column l s e
        ]

    mismatch_from-some :
        (index found : ℕ) (columns : List GlueColumn)
        → mismatch_from partition_columns by_position index columns ≡ some found
        → (n : ℕ) × (column : GlueColumn) × (found ≡ index + n)
          × (get_elem? columns n ≡ some column)
          × (differs_at column found ≡ true)
          × Agree index n columns
    unfolding mismatch_from get_elem?
    mismatch_from-some index found [] h = absurd (cc h)
    mismatch_from-some index found (c ∷ columns) h = elim (Bool-cases (differs_at c index)) [
      | inl d ↦
          let same : index ≡ found = cc (rw (d) at h) in
          (
            0,
            c,
            omega (arith, same),
            refl,
            rw (← same) d,
            λ m position column l s e. absurd (omega arith),
          )
      | inr d ↦
          let (n, column, s, g, bad, before) =
            mismatch_from-some (index + 1) found columns (rw (d) at h) in
          (suc n, column, omega (arith, s), g, bad, Agree-cons index n c columns d before)
    ]

    agreed :
        (column partition_column : GlueColumn)
        → differs column (some partition_column) ≡ false
        → same_column_type column.type partition_column.type ≡ true
    agreed column partition_column h =
        decided (same_column_type column.type partition_column.type) h
      where
        decided : (b : Bool) → (if b then false else true) ≡ false → b ≡ true
        decided true h = refl
        decided false h = absurd (cc h)

    -- Each column of the table that the partition has too, at its position or by its name, has the same type there.
    abbrev pub SameTypes : List GlueColumn → Type 0
    SameTypes table_columns =
        (n : ℕ) (column partition_column : GlueColumn)
        → get_elem? table_columns n ≡ some column
        → find_partition_column partition_columns column n by_position ≡ some partition_column
        → same_column_type column.type partition_column.type ≡ true

    -- a column whose type does not differ from that found in the partition
    agrees :
        (column : GlueColumn) (o : Option GlueColumn)
        → ((p : GlueColumn) → o ≡ some p → same_column_type column.type p.type ≡ true)
        → differs column o ≡ false
    agrees column none h = refl
    agrees column (some p) h = rw (h p refl) refl

    mismatch_from-agree :
        (index : ℕ) (columns : List GlueColumn)
        → ((n : ℕ) (column : GlueColumn)
            → get_elem? columns n ≡ some column
            → differs_at column (index + n) ≡ false)
        → mismatch_from partition_columns by_position index columns ≡ none
    unfolding mismatch_from get_elem?
    mismatch_from-agree index [] h = refl
    mismatch_from-agree index (c ∷ columns) h =
        let here : differs_at c index ≡ false =
          subst (λ k. differs_at c k ≡ false) (omega arith) (h 0 c refl) in
        rw here (
          mismatch_from-agree (index + 1) columns λ n column e.
            subst (λ k. differs_at column k ≡ false) (omega arith) (h (suc n) column e))

    -- FindColumnTypeMismatch returns no index just where each column of the table that the partition has
    -- too, at its position or by its name, has the same type there.
    pub find_column_type_mismatch-none :
        (table_columns : List GlueColumn)
        → (find_column_type_mismatch partition_columns table_columns by_position ≡ none)
          ↔ SameTypes table_columns
    unfolding find_column_type_mismatch
    find_column_type_mismatch-none table_columns = (
      λ h n column partition_column e f. agreed column partition_column (
          subst (λ o. differs column o ≡ false) f
            (mismatch_from-none 0 table_columns h (suc n) n n column (omega arith) (omega arith)
              e)),
      λ same. mismatch_from-agree 0 table_columns λ n column e.
          subst (λ k. differs_at column k ≡ false) (omega arith)
            (agrees column (find_partition_column partition_columns column n by_position)
              λ p f. same n column p e f),
    )

    -- The same of the columns of the table before one of them.
    abbrev pub SameTypesBefore : ℕ → List GlueColumn → Type 0
    SameTypesBefore end table_columns =
        (n : ℕ) (column partition_column : GlueColumn)
        → n < end
        → get_elem? table_columns n ≡ some column
        → find_partition_column partition_columns column n by_position ≡ some partition_column
        → same_column_type column.type partition_column.type ≡ true

    disagreed :
        (column : GlueColumn) (o : Option GlueColumn)
        → differs column o ≡ true
        → (partition_column : GlueColumn) × (o ≡ some partition_column)
          × (same_column_type column.type partition_column.type ≡ false)
    disagreed column none h = absurd (cc h)
    disagreed column (some partition_column) h = (partition_column, refl, ground (arith, h))

    -- An index that FindColumnTypeMismatch returns is that of the first column of the table that has another
    -- type in the partition: the partition has it too, with another type, and each column before it that the
    -- partition has too has the same type there.
    pub find_column_type_mismatch-some :
        (table_columns : List GlueColumn) (found : ℕ)
        → find_column_type_mismatch partition_columns table_columns by_position ≡ some found
        → ((column : GlueColumn) × (partition_column : GlueColumn) × (get_elem? table_columns found
              ≡ some column)
            × (find_partition_column partition_columns column found by_position
                ≡ some partition_column)
            × (same_column_type column.type partition_column.type ≡ false))
          × SameTypesBefore found table_columns
    unfolding find_column_type_mismatch
    find_column_type_mismatch-some table_columns found h =
        let (n, column, s, g, bad, before) = mismatch_from-some 0 found table_columns h in
        let same : n ≡ found = omega (arith, s) in
        let (partition_column, there, other) =
          disagreed column (find_partition_column partition_columns column found by_position) bad in
        (
          (
            column,
            partition_column,
            subst (λ k. get_elem? table_columns k ≡ some column) same g,
            there,
            other,
          ),
          λ m earlier in_partition below e f. agreed earlier in_partition (
              subst (λ o. differs earlier o ≡ false) f
                (before m m earlier (omega (arith, same, below)) (omega arith) e)),
        )
