-- ===== src/Tests/Percent.antt =====
-- A concrete HivePartitioning: percent encoding of the bytes that separate, for the instances.
use duckdb_aws_glue.Base.{
  ℕ, true, false, ◌≡◌, ◌≢◌, refl, sym, ap, ◌∙◌, arith, List, [], ◌∷◌, ◌++◌, append_assoc,
  append-nil, Text, text, ◌==◌, AllPass, all, if◌then◌else◌, ok, Bool-cases, inl, inr,
}
use duckdb_aws_glue.DuckDb.{DuckDb}
use duckdb_aws_glue.DuckDb.Ascii.{ascii}
use duckdb_aws_glue.Repair.Directory.{HivePartitioning, not_slash, not_equals, AllComponents}

abbrev pub escape : Text → Text
escape [] = []
escape (c ∷ s) =
    if c == b'/'
    then b'%' ∷ b'2' ∷ b'F' ∷ escape s
    else if c == b'='
    then b'%' ∷ b'3' ∷ b'D' ∷ escape s
    else if c == b'%'
    then b'%' ∷ b'2' ∷ b'5' ∷ escape s
    else c ∷ escape s

abbrev pub decode : ℕ → ℕ → ℕ
decode a b = if b == b'F' then b'/' else if b == b'D' then b'=' else b'%'

abbrev pub unescape : Text → Text
unescape (c ∷ a ∷ b ∷ s) = if c == b'%' then decode a b ∷ unescape s else c ∷ unescape (a ∷ b ∷ s)
unescape s = s

unescape-cons : (c : ℕ) (s : Text) → (c == b'%') ≡ false → unescape (c ∷ s) ≡ c ∷ unescape s
unescape-cons c [] h = refl
unescape-cons c (a ∷ []) h = refl
unescape-cons c (a ∷ b ∷ s) h = rw (h) refl

pub unescape-escape : (s : Text) → unescape (escape s) ≡ s
unescape-escape [] = refl
unescape-escape (c ∷ s) = elim (Bool-cases (c == b'/')) [
  | inl e ↦ let same : c ≡ b'/' = ground arith in rw (e, unescape-escape s, same) refl
  | inr n ↦ elim (Bool-cases (c == b'=')) [
    | inl e ↦ let same : c ≡ b'=' = ground arith in rw (n, e, unescape-escape s, same) refl
    | inr m ↦ elim (Bool-cases (c == b'%')) [
      | inl e ↦ let same : c ≡ b'%' = ground arith in rw (n, m, e, unescape-escape s, same) refl
      | inr k ↦ rw (n, m, k) (unescape-cons c (escape s) k ∙ ap (λ t. c ∷ t) (unescape-escape s))
    ]
  ]
]

pub escape-not_slash : (s : Text) → AllPass not_slash (escape s)
escape-not_slash [] = tt
escape-not_slash (c ∷ s) = ground (arith, escape-not_slash s)

pub escape-not_equals : (s : Text) → AllPass not_equals (escape s)
escape-not_equals [] = tt
escape-not_equals (c ∷ s) = ground (arith, escape-not_equals s)

abbrev pub split_from : Text → Text → List Text
split_from done [] = done ∷ []
split_from done (c ∷ s) =
    if c == b'/' then done ∷ split_from [] s else split_from (done ++ (c ∷ [])) s

split_from-append :
    (done c s : Text) → AllPass not_slash c → split_from done (c ++ s) ≡ split_from (done ++ c) s
split_from-append done [] s h = rw (append-nil done) refl
split_from-append done (b ∷ c) s h =
    let n : (b == b'/') ≡ false = ground arith in
    rw (n, split_from-append (done ++ (b ∷ [])) c s h.1, append_assoc done (b ∷ []) c) refl

all-AllPass : (s : Text) → all not_slash s ≡ true → AllPass not_slash s
all-AllPass [] h = tt
all-AllPass (c ∷ s) h = elim (Bool-cases (not_slash c)) [
  | inl e ↦ (e, all-AllPass s (rw (e) at h))
  | inr n ↦ absurd (cc (rw (n) at h))
]

module _ ⦃db : DuckDb⦄ where
  split_from-join :
      (c : Text) (cs : List Text)
      → AllPass not_slash c
      → AllComponents cs
      → split_from [] (db.join (c ∷ cs) (text "/")) ≡ c ∷ cs
  split_from-join c [] h k =
      ap (split_from []) (db.join-one c (text "/"))
      ∙ (ap (split_from []) (sym (append-nil c)) ∙ split_from-append [] c [] h)
  split_from-join c (d ∷ cs) h k =
      ap (split_from []) (db.join-cons c d cs (text "/"))
      ∙ (split_from-append [] c (b'/' ∷ db.join (d ∷ cs) (text "/")) h
          ∙ ap (λ t. c ∷ t) (split_from-join d cs k.0 k.2))

  pub default-AllPass :
      all not_slash (text "__HIVE_DEFAULT_PARTITION__") ≡ true
      → AllPass not_slash (text "__HIVE_DEFAULT_PARTITION__")
  default-AllPass h = all-AllPass (text "__HIVE_DEFAULT_PARTITION__") h

  pub split-join :
      (cs : List Text) → cs ≢ [] → AllComponents cs → split_from [] (db.join cs (text "/")) ≡ cs
  split-join [] n k = absurd (n refl)
  split-join (c ∷ cs) n k = split_from-join c cs k.0 k.2

instance unfoldable pub percent : HivePartitioning
unfolding ascii
percent = record {
  escape = escape;
  escape_value = escape;
  unescape = λ s. ok (unescape s);
  split = split_from [];
  unescape-escape = λ s. ap ok (unescape-escape s);
  unescape-escape_value = λ s. ap ok (unescape-escape s);
  unescape-default = refl;
  escape-not_slash = escape-not_slash;
  escape-not_equals = escape-not_equals;
  escape_value-not_slash = escape-not_slash;
  default-not_slash = default-AllPass refl;
  split-join = split-join;
}
