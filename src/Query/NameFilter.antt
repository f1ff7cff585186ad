-- ===== src/Query/NameFilter.antt =====
-- TryGetNameEquality of src/catalog/scan_filter_equality.cpp, with the part of DuckDB's bound expressions
-- that it looks at and what they mean for a value of the filtered column.
use duckdb_aws_glue.Base.{
  Bool, true, false, ◌&&◌, ◌≡◌, ◌⊎◌, inl, inr, refl, arith, Text, text, text_eq, text_eq_sound,
  if◌then◌else◌, Option, none, some, sym,
}

-- a constant: NULL, a VARCHAR, or a value of another type
pub data Value : Type 0 where
  null : Value
  varchar : Text → Value
  other : Text → Value

-- An expression over the filtered column: a call has the name of its function and one argument; what
-- the code does not look into is `opaque_expression`.
pub data Expression : Type 0 where
  column_ref : Expression
  call : Text → Expression → Expression
  constant : Value → Expression
  compare_equal : Expression → Expression → Expression
  opaque_expression : Text → Expression

abbrev pub is_column_ref : Expression → Bool
is_column_ref column_ref = true
is_column_ref _ = false

-- IsNameOperand
unfoldable pub is_name_operand : Expression → Bool
unfolding text_eq
is_name_operand column_ref = true
is_name_operand (call function child) = text_eq function (text "lower") && is_column_ref child
is_name_operand _ = false

abbrev pub name_of : Value → Option Text
name_of (varchar name) = some name
name_of _ = none

-- the constant that a name operand is compared with
abbrev pub constant_of : Expression → Option Value
constant_of (constant value) = some value
constant_of _ = none

abbrev pub compared : Bool → Option Value → Option Value
compared true value = value
compared false value = none

abbrev pub first_value : Option Value → Option Value → Option Value
first_value (some v) o = some v
first_value none o = o

abbrev pub name_of_constant : Option Value → Option Text
name_of_constant none = none
name_of_constant (some value) = name_of value

-- TryGetNameEquality, of the filter's expression where there is a filter
unfoldable pub try_get_name_equality : Option Expression → Option Text
unfolding is_name_operand
try_get_name_equality (some (compare_equal left right)) = name_of_constant (
    first_value (compared (is_name_operand left) (constant_of right))
      (compared (is_name_operand right) (constant_of left)))
try_get_name_equality _ = none

-- `sql_lower` is what DuckDB's function lower() gives.
module _ (sql_lower : Text → Text) where
  abbrev pub lower_value : Value → Value
  lower_value (varchar s) = varchar (sql_lower s)
  lower_value v = v

  -- What an expression gives for the column's text; `called` and `opaque` are the meaning of what the code
  -- does not look into.
  module _ (called : Text → Value → Value) (opaque : Text → Text → Value) where
    abbrev pub apply_call : Text → Value → Value
    apply_call function v =
        if text_eq function (text "lower") then lower_value v else called function v

    abbrev pub equal_values : Value → Value → Bool
    equal_values (varchar s) (varchar t) = text_eq s t
    equal_values (other s) (other t) = text_eq s t
    equal_values _ _ = false

    abbrev pub evaluate : Text → Expression → Value
    evaluate x column_ref = varchar x
    evaluate x (call function child) = apply_call function (evaluate x child)
    evaluate x (constant v) = v
    evaluate x (compare_equal left right) =
        if equal_values (evaluate x left) (evaluate x right)
        then other (text "true")
        else other (text "false")
    evaluate x (opaque_expression e) = opaque e x

    -- whether the filter keeps the text
    abbrev pub keeps : Expression → Text → Bool
    keeps (compare_equal left right) x = equal_values (evaluate x left) (evaluate x right)
    keeps e x = equal_values (evaluate x e) (other (text "true"))

    operand-value :
        (e : Expression) (x : Text)
        → is_name_operand e ≡ true
        → (evaluate x e ≡ varchar x) ⊎ (evaluate x e ≡ varchar (sql_lower x))
    unfolding is_name_operand
    operand-value column_ref x h = inl refl
    operand-value (call f column_ref) x h =
        let same : text_eq f (text "lower") ≡ true = ground arith in inr (rw (same) refl)
    operand-value (call f (call g e)) x h = absurd (ground arith)
    operand-value (call f (constant v)) x h = absurd (ground arith)
    operand-value (call f (compare_equal l r)) x h = absurd (ground arith)
    operand-value (call f (opaque_expression e)) x h = absurd (ground arith)
    operand-value (constant v) x h = absurd (cc h)
    operand-value (compare_equal l r) x h = absurd (cc h)
    operand-value (opaque_expression e) x h = absurd (cc h)

    operand-left :
        (e : Expression) (name x : Text)
        → is_name_operand e ≡ true
        → equal_values (evaluate x e) (varchar name) ≡ true
        → (x ≡ name) ⊎ (sql_lower x ≡ name)
    operand-left e name x o k = elim (operand-value e x o) [
      | inl v ↦ inl (text_eq_sound x name (rw (v) at k))
      | inr v ↦ inr (text_eq_sound (sql_lower x) name (rw (v) at k))
    ]

    operand-right :
        (e : Expression) (name x : Text)
        → is_name_operand e ≡ true
        → equal_values (varchar name) (evaluate x e) ≡ true
        → (x ≡ name) ⊎ (sql_lower x ≡ name)
    operand-right e name x o k = elim (operand-value e x o) [
      | inl v ↦ inl (sym (text_eq_sound name x (rw (v) at k)))
      | inr v ↦ inr (sym (text_eq_sound name (sql_lower x) (rw (v) at k)))
    ]

    constant-value :
        (e : Expression) (v : Value) (x : Text) → constant_of e ≡ some v → evaluate x e ≡ v
    constant-value column_ref v x h = absurd (cc h)
    constant-value (call f e) v x h = absurd (cc h)
    constant-value (constant w) v x h = cc h
    constant-value (compare_equal l r) v x h = absurd (cc h)
    constant-value (opaque_expression e) v x h = absurd (cc h)

    name_of-varchar : (v : Value) (name : Text) → name_of v ≡ some name → v ≡ varchar name
    name_of-varchar null name h = absurd (cc h)
    name_of-varchar (varchar s) name h = cc h
    name_of-varchar (other s) name h = absurd (cc h)

    -- The value that is compared, and the operand on the other side.
    compared-cases :
        (left right : Expression) (name : Text)
        → name_of_constant (
            first_value
              (compared (is_name_operand left) (constant_of right))
              (compared (is_name_operand right) (constant_of left)))
          ≡ some name
        → ((is_name_operand left ≡ true) × (constant_of right ≡ some (varchar name)))
          ⊎ ((is_name_operand right ≡ true) × (constant_of left ≡ some (varchar name)))
    compared-cases left right name h =
        go (is_name_operand left) (is_name_operand right) (constant_of left) (constant_of right) h
      where
        go :
            (a b : Bool) (l r : Option Value)
            → name_of_constant (first_value (compared a r) (compared b l)) ≡ some name
            → ((a ≡ true) × (r ≡ some (varchar name))) ⊎ ((b ≡ true) × (l ≡ some (varchar name)))
        go true b l (some v) h = inl (refl, rw (name_of-varchar v name h) refl)
        go true true (some v) none h = inr (refl, rw (name_of-varchar v name h) refl)
        go true true none none h = absurd (cc h)
        go true false l none h = absurd (cc h)
        go false true (some v) r h = inr (refl, rw (name_of-varchar v name h) refl)
        go false true none r h = absurd (cc h)
        go false false l r h = absurd (cc h)

    -- Where TryGetNameEquality finds a name in a filter, the filter keeps a text only if it is the name, or if the name is
    -- what lower() gives for the text, whatever DuckDB's lower() and the calls that the code does not look into
    -- compute.
    pub try_get_name_equality-keeps :
        (e : Expression) (name x : Text)
        → try_get_name_equality (some e) ≡ some name
        → keeps e x ≡ true
        → (x ≡ name) ⊎ (sql_lower x ≡ name)
    unfolding try_get_name_equality
    try_get_name_equality-keeps column_ref name x h k = absurd (cc h)
    try_get_name_equality-keeps (call f e) name x h k = absurd (cc h)
    try_get_name_equality-keeps (constant v) name x h k = absurd (cc h)
    try_get_name_equality-keeps (opaque_expression e) name x h k = absurd (cc h)
    try_get_name_equality-keeps (compare_equal left right) name x h k =
        elim (compared-cases left right name h) [
          | inl (o, c) ↦
              operand-left left name x o (rw (constant-value right (varchar name) x c) at k)
          | inr (o, c) ↦
              operand-right right name x o (rw (constant-value left (varchar name) x c) at k)
        ]
