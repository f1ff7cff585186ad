-- ===== src/Creation/Maps.antt =====
-- Lookups in maps that are built by emplace (src/api/glue_api_util.cpp).
use duckdb_aws_glue.Base.{
  ◌≡◌, refl, sym, ◌∙◌, inl, inr, arith, true, false, [], ◌∷◌, Text, text_eq, text_eq_sound,
  text_eq_refl, ap, text_lt, if◌then◌else◌, Option, none, some, Bool-cases, Option-cases,
}
use duckdb_aws_glue.Table.Info.{Parameters, find, or_else}
use duckdb_aws_glue.Table.Alter.{assign}
use duckdb_aws_glue.Creation.Objects.{emplace, emplace_all, to_aws_map}

abbrev at_key : Text → Text → Text → Option Text
at_key key other value = if text_eq other key then some value else none

or_else-none : (o : Option Text) → or_else o none ≡ o
or_else-none (some v) = refl
or_else-none none = refl

or_else_assoc : (a b c : Option Text) → or_else (or_else a b) c ≡ or_else a (or_else b c)
or_else_assoc (some v) b c = refl
or_else_assoc none b c = refl

at_key-differs :
    (k key other value v : Text)
    → text_eq k other ≡ false
    → text_eq k key ≡ true
    → or_else (at_key key other value) (some v) ≡ some v
at_key-differs k key other value v differ here = elim (Bool-cases (text_eq other key)) [
  | inr unequal ↦ rw unequal refl
  | inl equal ↦
      let same : k ≡ other = text_eq_sound k key here ∙ sym (text_eq_sound other key equal) in
      absurd (cc (text_eq_refl other, rw same at differ))
]

find-assign :
    (key other value : Text) (ps : Parameters)
    → find key (assign other value ps) ≡ or_else (at_key key other value) (find key ps)
unfolding find assign
find-assign key other value [] = ground arith
find-assign key other value ((k, v) ∷ rest) =
    let ih = find-assign key other value rest in
    elim (Bool-cases (text_eq k other)) [
      | inl same ↦ let e : k ≡ other = text_eq_sound k other same in rw (same, e) (ground arith)
      | inr differ ↦ elim (Bool-cases (text_lt other k)) [
        | inl before ↦ rw (differ, before) (ground arith)
        | inr after ↦ elim (Bool-cases (text_eq k key)) [
          | inl here ↦
              rw (differ, after, here) (sym (at_key-differs k key other value v differ here))
          | inr elsewhere ↦ rw (differ, after, elsewhere) ih
        ]
      ]
    ]

emplace-absent :
    (key value : Text) (ps : Parameters)
    → find key ps ≡ none
    → emplace key value ps ≡ assign key value ps
unfolding emplace
emplace-absent key value ps h = rw (h, emplace) refl

emplace-there :
    (key value v : Text) (ps : Parameters) → find key ps ≡ some v → emplace key value ps ≡ ps
unfolding emplace
emplace-there key value v ps h = rw (h, emplace) refl

or_else_comm : (a b : Option Text) → a ≡ none → or_else a b ≡ or_else b a
or_else_comm a b h = rw h (sym (or_else-none b))

pub find-emplace :
    (key other value : Text) (ps : Parameters)
    → find key (emplace other value ps) ≡ or_else (find key ps) (at_key key other value)
find-emplace key other value ps = elim (Option-cases (find other ps)) [
  | inl absent ↦
      rw (emplace-absent other value ps absent) (find-assign key other value ps ∙ swapped absent)
  | inr (v, there) ↦ rw (emplace-there other value v ps there) (kept v there)
]
  where
    swapped :
        find other ps ≡ none
        → or_else (at_key key other value) (find key ps)
          ≡ or_else (find key ps) (at_key key other value)
    swapped absent = elim (Bool-cases (text_eq other key)) [
      | inl equal ↦
          let e : other ≡ key = text_eq_sound other key equal in
          sym (or_else_comm (find key ps) (at_key key other value) (rw e at absent))
      | inr unequal ↦ rw unequal (sym (or_else-none (find key ps)))
    ]

    kept :
        (v : Text)
        → find other ps ≡ some v
        → find key ps ≡ or_else (find key ps) (at_key key other value)
    kept v there = elim (Bool-cases (text_eq other key)) [
      | inl equal ↦
          let e : other ≡ key = text_eq_sound other key equal in
          let here : find key ps ≡ some v = rw e at there in rw here refl
      | inr unequal ↦ rw unequal (sym (or_else-none (find key ps)))
    ]

pub find-emplace_all :
    (key : Text) (entries ps : Parameters)
    → find key (emplace_all entries ps) ≡ or_else (find key ps) (find key entries)
unfolding emplace_all find
find-emplace_all key [] ps = sym (or_else-none (find key ps))
find-emplace_all key ((k, v) ∷ rest) ps =
    find-emplace_all key rest (emplace k v ps)
    ∙ (ap (λ o. or_else o (find key rest)) (find-emplace key k v ps)
        ∙ (or_else_assoc (find key ps) (at_key key k v) (find key rest)
            ∙ ap (or_else (find key ps)) (entry key k v rest)))
  where
    entry :
        (key k v : Text) (rest : Parameters)
        → or_else (at_key key k v) (find key rest) ≡ find key ((k, v) ∷ rest)
    entry key k v rest = ground arith

-- a copy of a map has the entries of the map
pub find-to_aws_map : (key : Text) (ps : Parameters) → find key (to_aws_map ps) ≡ find key ps
unfolding find
find-to_aws_map key ps = find-emplace_all key ps []
