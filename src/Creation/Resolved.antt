-- ===== src/Creation/Resolved.antt =====
-- The columns that a created table names (src/catalog/glue_schema_entry.cpp).
use mathlib.Core.Path.{subst}
use duckdb_aws_glue.Base.{
  ◌≡◌, ◌⊎◌, inl, inr, refl, sym, ap, ◌∙◌, true, false, List, [], ◌∷◌, Text, text_eq, text_eq_sound,
  ok, after, Bool-cases, map, ok-injective,
}
use duckdb_aws_glue.DuckDb.{DuckDb, ci_equals, lower}
use duckdb_aws_glue.Table.Info.{GlueColumn}
use duckdb_aws_glue.Types.Printer.{from_logical_type}
use duckdb_aws_glue.Creation.Bucketing.{
  column_name, is_listed, spelled, resolve_column, resolve_columns, resolve_sort_columns,
}
use duckdb_aws_glue.Creation.Build.{ColumnDefinition, definition_name, glue_column, data_columns}

abbrev pub In : Text → List Text → Type 0
In name [] = ⊥
In name (other ∷ names) = (name ≡ other) ⊎ In name names

-- Each of the names is one of the others, as it is spelled there.
abbrev pub AllIn : List Text → List Text → Type 0
AllIn [] others = Unit
AllIn (name ∷ names) others = In name others × AllIn names others

module _ ⦃db : DuckDb⦄ where
  ci_equals-lower : (a b : Text) → ci_equals a b ≡ true → lower a ≡ lower b
  ci_equals-lower a b h = text_eq_sound (lower a) (lower b) (sym (db.ci_equals_lem a b) ∙ h)

  -- names that are equal but for case are listed alike
  is_listed-ci_equals :
      (a b : Text) (names : List Text)
      → ci_equals a b ≡ true
      → is_listed a names ≡ is_listed b names
  is_listed-ci_equals a b [] h = refl
  is_listed-ci_equals a b (other ∷ names) h =
      let same : ci_equals other a ≡ ci_equals other b =
        db.ci_equals_lem other a
        ∙ (ap (text_eq (lower other)) (ci_equals-lower a b h) ∙ sym (db.ci_equals_lem other b)) in
      rw (same, is_listed-ci_equals a b names h) refl

  spelled-In :
      (name spelling : Text) (columns : List Text)
      → spelled name columns ≡ ok spelling
      → In spelling columns × (ci_equals spelling name ≡ true)
  spelled-In name spelling [] h = cc
  spelled-In name spelling (column ∷ columns) h = elim (Bool-cases (ci_equals column name)) [
    | inl same ↦
        let e : column ≡ spelling = ok-injective (rw same at h) in (inl (sym e), rw (← e) same)
    | inr differ ↦ let (m, e) = spelled-In name spelling columns (rw differ at h) in (inr m, e)
  ]

  -- The data columns of the table: those of the statement that are not partition columns.
  data_columns-In :
      (keys : List Text) (definitions : List ColumnDefinition) (columns : List GlueColumn)
      (name : Text)
      → data_columns keys definitions ≡ ok columns
      → In name (map definition_name definitions)
      → is_listed name keys ≡ false
      → In name (map column_name columns)
  unfolding data_columns glue_column
  data_columns-In keys [] columns name h m l = absurd m
  data_columns-In keys (d ∷ definitions) columns name h m l =
      elim (Bool-cases (is_listed d.name keys)) [
        | inl partition ↦
            later partition m
              λ rest. data_columns-In keys definitions columns name (rw partition at h) rest l
        | inr kept ↦ after (glue_column d) _ (rw kept at h) λ c e h₁.
            after (data_columns keys definitions) _ h₁ λ cs e' h₂.
              subst (λ l'. In name (map column_name l')) (ok-injective h₂)
                (first c e cs m λ rest. data_columns-In keys definitions cs name e' rest l)
      ]
    where
      later :
          is_listed d.name keys ≡ true
          → In name (map definition_name (d ∷ definitions))
          → (In name (map definition_name definitions) → In name (map column_name columns))
          → In name (map column_name columns)
      later partition (inl same) ih =
          let e : is_listed name keys ≡ true = rw same partition in absurd (cc (e, l))
      later partition (inr rest) ih = ih rest

      first :
          (c : GlueColumn)
          → glue_column d ≡ ok c
          → (cs : List GlueColumn) → In name (map definition_name (d ∷ definitions))
          → (In name (map definition_name definitions) → In name (map column_name cs))
          → In name (map column_name (c ∷ cs))
      first c e cs (inl same) ih =
          after (from_logical_type d.type) _ e
            λ t p q. inl (same ∙ ap (λ (x : GlueColumn). x.name) (ok-injective q))
      first c e cs (inr rest) ih = inr (ih rest)

  module _ (keys : List Text) (definitions : List ColumnDefinition) (columns : List GlueColumn)
      (built : data_columns keys definitions ≡ ok columns) where
    resolve_column-In :
        (name spelling : Text)
        → resolve_column (map definition_name definitions) keys name ≡ ok spelling
        → In spelling (map column_name columns)
    unfolding resolve_column
    resolve_column-In name spelling h = elim (Bool-cases (is_listed name keys)) [
      | inl partition ↦ absurd (cc (rw partition at h))
      | inr data_column ↦
          let (m, e) =
            spelled-In name spelling (map definition_name definitions) (rw data_column at h) in
          data_columns-In keys definitions columns spelling built m
            (is_listed-ci_equals spelling name keys e ∙ data_column)
    ]

    pub resolve_columns-AllIn :
        (names spellings : List Text)
        → resolve_columns (map definition_name definitions) keys names ≡ ok spellings
        → AllIn spellings (map column_name columns)
    unfolding resolve_columns
    resolve_columns-AllIn [] spellings h =
        subst (λ l. AllIn l (map column_name columns)) (ok-injective h) tt
    resolve_columns-AllIn (name ∷ names) spellings h =
        after (resolve_column (map definition_name definitions) keys name) _ h λ s e h₁.
          after (resolve_columns (map definition_name definitions) keys names) _ h₁ λ ss e' h₂.
            subst (λ l. AllIn l (map column_name columns)) (ok-injective h₂)
              (resolve_column-In name s e, resolve_columns-AllIn names ss e')

    pub resolve_sort_columns-AllIn :
        (sorts sorts' : List GlueColumn)
        → resolve_sort_columns (map definition_name definitions) keys sorts ≡ ok sorts'
        → AllIn (map column_name sorts') (map column_name columns)
    unfolding resolve_sort_columns
    resolve_sort_columns-AllIn [] sorts' h =
        subst (λ (l : List GlueColumn). AllIn (map column_name l) (map column_name columns))
          (ok-injective h) tt
    resolve_sort_columns-AllIn (sort ∷ sorts) sorts' h =
        after (resolve_column (map definition_name definitions) keys sort.name) _ h λ s e h₁.
          after (resolve_sort_columns (map definition_name definitions) keys sorts) _ h₁ λ ss e' h₂.
            subst (λ (l : List GlueColumn). AllIn (map column_name l) (map column_name columns))
              (ok-injective h₂)
              (resolve_column-In sort.name s e, resolve_sort_columns-AllIn sorts ss e')
