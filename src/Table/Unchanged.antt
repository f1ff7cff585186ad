-- ===== src/Table/Unchanged.antt =====
-- Altering a table's properties does not change how the table is read.
use mathlib.Core.Path.{subst}
use duckdb_aws_glue.Base.{
  >>-eq-ok, >>=-eq-ok, ok-injective, false, List, [], ◌∷◌, Text, text, text_eq, text_eq_sound, ok,
  ◌≡◌, refl, arith, ◌∙◌, Bool-cases, inl, inr, ◌⊎◌,
}
use duckdb_aws_glue.DuckDb.{DuckDb, ci_equals}
use duckdb_aws_glue.Table.Info.{
  Parameters, GlueTableInfo, find_parameter, get_parameter, get_metadata_location,
}
use duckdb_aws_glue.Table.TableFormat.{
  is_parameter, detect, detect_storage, from_parameters, from_provider,
}
use duckdb_aws_glue.Table.Alter.{
  erase, assign, erase_all, assign_all, with_parameters, update_table_parameters,
  check_table_property_changeable, check_set, check_unset, set_table_options, reset_table_options,
}

module _ ⦃db : DuckDb⦄ where
  find_parameter-erase :
      (key p : Text) (ps : Parameters)
      → ci_equals key p ≡ false
      → find_parameter p (erase key ps) ≡ find_parameter p ps
  unfolding find_parameter erase
  find_parameter-erase key p [] h = refl
  find_parameter-erase key p ((k, v) ∷ rest) h =
      let ih = find_parameter-erase key p rest h in
      elim (Bool-cases (text_eq k key)) [
        | inl same ↦
            let e : k ≡ key = text_eq_sound k key same in
            let other : ci_equals k p ≡ false = rw (e) h in rw (same, other) ih
        | inr different ↦ rw (different) (ground (arith, ih))
      ]

  find_parameter-assign :
      (key value p : Text) (ps : Parameters)
      → ci_equals key p ≡ false
      → find_parameter p (assign key value ps) ≡ find_parameter p ps
  unfolding find_parameter assign
  find_parameter-assign key value p [] h = rw (h) refl
  find_parameter-assign key value p ((k, v) ∷ rest) h =
      let ih = find_parameter-assign key value p rest h in
      elim (Bool-cases (text_eq k key)) [
        | inl same ↦
            let e : k ≡ key = text_eq_sound k key same in
            let other : ci_equals k p ≡ false = rw (e) h in rw (same, other, h) refl
        | inr different ↦ rw (different) (ground (arith, ih))
      ]

  -- The parameters that decide the format.
  unfoldable IsParameter : Text → Type 0
  IsParameter p =
      (p ≡ text "table_type")
      ⊎ (p ≡ text "spark.sql.sources.provider")
      ⊎ (p ≡ text "metadata_location")

  check-differs :
      (key p : Text)
      → IsParameter p
      → check_table_property_changeable key ≡ ok tt
      → ci_equals key p ≡ false
  unfolding check_table_property_changeable is_parameter IsParameter
  check-differs key p (inl e) h = rw (e) (ground arith)
  check-differs key p (inr (inl e)) h = rw (e) (ground arith)
  check-differs key p (inr (inr e)) h = rw (e) (ground arith)

  find_parameter-erase_all :
      (keys : List Text) (p : Text) (ps : Parameters)
      → IsParameter p
      → check_unset keys ≡ ok tt
      → find_parameter p (erase_all keys ps) ≡ find_parameter p ps
  unfolding erase_all check_unset
  find_parameter-erase_all [] p ps i h = refl
  find_parameter-erase_all (key ∷ keys) p ps i h =
      let (checked, rest) = >>-eq-ok (check_table_property_changeable key) (check_unset keys) h in
      find_parameter-erase_all keys p (erase key ps) i rest
      ∙ find_parameter-erase key p ps (check-differs key p i checked)

  find_parameter-assign_all :
      (set : Parameters) (p : Text) (ps : Parameters)
      → IsParameter p
      → check_set set ≡ ok tt
      → find_parameter p (assign_all set ps) ≡ find_parameter p ps
  unfolding assign_all check_set
  find_parameter-assign_all [] p ps i h = refl
  find_parameter-assign_all ((key, value) ∷ entries) p ps i h =
      let (checked, rest) = >>-eq-ok (check_table_property_changeable key) (check_set entries) h in
      find_parameter-assign_all entries p (assign key value ps) i rest
      ∙ find_parameter-assign key value p ps (check-differs key p i checked)

  detect-with_parameters :
      (table : GlueTableInfo) (changed : Parameters)
      → ((p : Text) → IsParameter p → find_parameter p changed ≡ find_parameter p table.parameters)
      → detect (with_parameters table changed) ≡ detect table
  unfolding detect detect_storage from_parameters from_provider get_parameter get_metadata_location
      IsParameter
  detect-with_parameters table changed agree =
      rw
        (
          agree (text "table_type") (inl refl),
          agree (text "spark.sql.sources.provider") (inr (inl refl)),
          agree (text "metadata_location") (inr (inr refl)),
        )
        refl

  -- A table whose properties ALTER TABLE ... SET changed, whatever they were and in whatever case their
  -- names are written, has the table format that it had before, with the parameters read in the order of
  -- Glue's map.
  pub set_table_options-detect :
      (set : Parameters) (table altered : GlueTableInfo)
      → set_table_options set table ≡ ok altered
      → detect altered ≡ detect table
  unfolding set_table_options update_table_parameters erase_all
  set_table_options-detect set table altered h =
      let (u, checked, e) = >>=-eq-ok (check_set set) _ h in
      subst (λ t. detect t ≡ detect table) (ok-injective e)
        (detect-with_parameters table (assign_all set table.parameters)
          (λ p i. find_parameter-assign_all set p table.parameters i checked))

  -- A table whose properties ALTER TABLE ... RESET removed has the table format that it had before, with the
  -- parameters read in the order of Glue's map.
  pub reset_table_options-detect :
      (unset : List Text) (table altered : GlueTableInfo)
      → reset_table_options unset table ≡ ok altered
      → detect altered ≡ detect table
  unfolding reset_table_options update_table_parameters assign_all
  reset_table_options-detect unset table altered h =
      let (u, checked, e) = >>=-eq-ok (check_unset unset) _ h in
      subst (λ t. detect t ≡ detect table) (ok-injective e)
        (detect-with_parameters table (erase_all unset table.parameters)
          (λ p i. find_parameter-erase_all unset p table.parameters i checked))
