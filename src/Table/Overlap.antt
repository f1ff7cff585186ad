-- ===== src/Table/Overlap.antt =====
-- What the comparison of locations promises (src/core/hive_location.cpp).
use mathlib.Core.List.{reverse, reverse-append, reverse-reverse}
use mathlib.Core.Path.{subst}
use duckdb_aws_glue.Base.{
  ℕ, Bool, true, ◌≡◌, ◌≢◌, ◌↔◌, ◌⊎◌, inl, inr, refl, sym, ap, ◌∙◌, arith, [], ◌∷◌, ◌++◌, Text, text,
  text_eq, text_eq_sound, text_eq_refl, ◌==◌, trim_end, take, drop, length, map, suc, drop_while,
  Bool-cases, append_assoc,
}
use duckdb_aws_glue.DuckDb.{DuckDb, lower, starts_with, r_trim_of, is_prefix, lower_byte, one_of}
use duckdb_aws_glue.Table.Location.{comparable_scheme, comparable_location, locations_overlap}

is_prefix_sound : (p s : Text) → is_prefix p s ≡ true → (rest : Text) × (s ≡ p ++ rest)
is_prefix_sound [] s h = (s, refl)
is_prefix_sound (a ∷ p) [] h = absurd (cc h)
is_prefix_sound (a ∷ p) (b ∷ s) h = elim (Bool-cases (a == b)) [
  | inl same ↦
      let (rest, e) = is_prefix_sound p s (rw (same) at h) in
      let ab : b ≡ a = ground arith in (rest, rw (ab, e) refl)
  | inr differ ↦ absurd (cc (rw (differ) at h))
]

is_prefix_complete : (p rest : Text) → is_prefix p (p ++ rest) ≡ true
is_prefix_complete [] rest = refl
is_prefix_complete (a ∷ p) rest = ground (arith, is_prefix_complete p rest)

drop_while-keeps :
    (p : ℕ → Bool) (xs ys : Text)
    → drop_while p xs ≢ []
    → drop_while p (xs ++ ys) ≡ drop_while p xs ++ ys
unfolding drop_while
drop_while-keeps p [] ys n = absurd (n refl)
drop_while-keeps p (x ∷ xs) ys n = elim (Bool-cases (p x)) [
  | inl passes ↦ rw (passes) (drop_while-keeps p xs ys (rw (passes) at n))
  | inr stops ↦ rw (stops) refl
]

-- What ends a text is trimmed whatever precedes it, if something is left of it.
trim_end-append :
    (p : ℕ → Bool) (s t : Text) → trim_end p t ≢ [] → trim_end p (s ++ t) ≡ s ++ trim_end p t
unfolding trim_end
trim_end-append p s t n =
    ap (λ r. reverse (drop_while p r)) (reverse-append s t)
    ∙ (ap reverse (drop_while-keeps p (reverse t) (reverse s) (λ e. n (ap reverse e)))
        ∙ (reverse-append (drop_while p (reverse t)) (reverse s)
            ∙ ap (λ r. r ++ reverse (drop_while p (reverse t))) (reverse-reverse s)))

module _ ⦃db : DuckDb⦄ where
  -- The schemes of S3, in any case.
  abbrev pub IsS3Scheme : Text → Type 0
  IsS3Scheme scheme =
      (lower scheme ≡ text "s3://")
      ⊎ (lower scheme ≡ text "s3a://")
      ⊎ (lower scheme ≡ text "s3n://")

  lowered : (s : Text) → lower s ≡ map lower_byte s
  lowered [] = db.lower-nil
  lowered (c ∷ s) = db.lower-cons c s ∙ ap (λ t. lower_byte c ∷ t) (lowered s)

  take-append : (s t : Text) → take (length s) (s ++ t) ≡ s
  unfolding take
  take-append [] t = refl
  take-append (c ∷ s) t = ap (λ r. c ∷ r) (take-append s t)

  take-more : (s t : Text) → take (suc (length s)) (s ++ t) ≡ s ++ take 1 t
  unfolding take
  take-more [] t = refl
  take-more (c ∷ s) t = ap (λ r. c ∷ r) (take-more s t)

  lower-append : (s t : Text) → lower (s ++ t) ≡ lower s ++ lower t
  lower-append [] t = ap (λ r. r ++ lower t) (sym db.lower-nil)
  lower-append (c ∷ s) t =
      db.lower-cons c (s ++ t)
      ∙ (ap (λ r. lower_byte c ∷ r) (lower-append s t)
          ∙ ap (λ r. r ++ lower t) (sym (db.lower-cons c s)))

  drop-append : (s t : Text) → drop (length s) (s ++ t) ≡ t
  unfolding drop
  drop-append [] t = refl
  drop-append (c ∷ s) t = drop-append s t

  length-lower : (s t : Text) → lower s ≡ t → length s ≡ length t
  length-lower s t e = length-map s ∙ ap length (sym (lowered s) ∙ e)
    where
      length-map : (s : Text) → length s ≡ length (map lower_byte s)
      length-map [] = refl
      length-map (c ∷ s) = ap suc (length-map s)

  comparable_scheme-s3 :
      (scheme t : Text) → IsS3Scheme scheme → comparable_scheme (scheme ++ t) ≡ text "s3://" ++ t
  unfolding comparable_scheme
  comparable_scheme-s3 scheme t (inl e) =
      let five : length scheme ≡ 5 = length-lower scheme (text "s3://") e in
      let more : take 6 (scheme ++ t) ≡ scheme ++ take 1 t =
        subst (λ n. take (suc n) (scheme ++ t) ≡ scheme ++ take 1 t) five (take-more scheme t) in
      let head : take 5 (scheme ++ t) ≡ scheme =
        subst (λ n. take n (scheme ++ t) ≡ scheme) five (take-append scheme t) in
      let tail : drop 5 (scheme ++ t) ≡ t =
        subst (λ n. drop n (scheme ++ t) ≡ t) five (drop-append scheme t) in
      rw (more, lower-append scheme (take 1 t), e, head, e, tail) (unfold text_eq in refl)
  comparable_scheme-s3 scheme t (inr (inl e)) =
      let six : length scheme ≡ 6 = length-lower scheme (text "s3a://") e in
      let head : take 6 (scheme ++ t) ≡ scheme =
        subst (λ n. take n (scheme ++ t) ≡ scheme) six (take-append scheme t) in
      let tail : drop 6 (scheme ++ t) ≡ t =
        subst (λ n. drop n (scheme ++ t) ≡ t) six (drop-append scheme t) in
      rw (head, e, tail) (unfold text_eq in refl)
  comparable_scheme-s3 scheme t (inr (inr e)) =
      let six : length scheme ≡ 6 = length-lower scheme (text "s3n://") e in
      let head : take 6 (scheme ++ t) ≡ scheme =
        subst (λ n. take n (scheme ++ t) ≡ scheme) six (take-append scheme t) in
      let tail : drop 6 (scheme ++ t) ≡ t =
        subst (λ n. drop n (scheme ++ t) ≡ t) six (drop-append scheme t) in
      rw (head, e, tail) (unfold text_eq in refl)

  -- ComparableLocation gives one spelling to the locations that differ only in the scheme, s3, s3a or s3n in
  -- any case, and in slashes at the end; something other than slashes follows the scheme.
  pub comparable_location-s3 :
      (scheme scheme' rest rest' : Text)
      → IsS3Scheme scheme
      → IsS3Scheme scheme'
      → r_trim_of rest (text "/") ≢ []
      → r_trim_of rest (text "/") ≡ r_trim_of rest' (text "/")
      → comparable_location (scheme ++ rest) ≡ comparable_location (scheme' ++ rest')
  unfolding comparable_location
  comparable_location-s3 scheme scheme' rest rest' i i' n e =
      spelled scheme rest i n
      ∙ (ap (λ t. text "s3://" ++ t) e ∙ sym (spelled scheme' rest' i' (λ x. n (e ∙ x))))
    where
      trimmed :
          (s t : Text)
          → r_trim_of t (text "/") ≢ []
          → r_trim_of (s ++ t) (text "/") ≡ s ++ r_trim_of t (text "/")
      trimmed s t n =
          db.r_trim_of_lem (s ++ t) (text "/")
          ∙ (trim_end-append (one_of (text "/")) s t (λ x. n (db.r_trim_of_lem t (text "/") ∙ x))
              ∙ ap (λ r. s ++ r) (sym (db.r_trim_of_lem t (text "/"))))

      spelled :
          (s t : Text)
          → IsS3Scheme s
          → r_trim_of t (text "/") ≢ []
          → comparable_scheme (r_trim_of (s ++ t) (text "/"))
            ≡ text "s3://" ++ r_trim_of t (text "/")
      spelled s t i n =
          ap comparable_scheme (trimmed s t n) ∙ comparable_scheme-s3 s (r_trim_of t (text "/")) i

  -- One location is below the other, at a boundary between path components.
  abbrev pub IsBelow : Text → Text → Type 0
  IsBelow a b = (rest : Text) × (a ≡ b ++ (b'/' ∷ rest))

  starts_with-IsBelow : (a b : Text) → starts_with a (b ++ text "/") ≡ true → IsBelow a b
  starts_with-IsBelow a b h =
      let (rest, e) =
        is_prefix_sound (b ++ text "/") a (sym (db.starts_with_lem a (b ++ text "/")) ∙ h) in
      (rest, e ∙ append_assoc b (text "/") rest)

  IsBelow-starts_with : (a b : Text) → IsBelow a b → starts_with a (b ++ text "/") ≡ true
  IsBelow-starts_with a b (rest, e) =
      db.starts_with_lem a (b ++ text "/")
      ∙ (ap (is_prefix (b ++ text "/")) (e ∙ sym (append_assoc b (text "/") rest))
          ∙ is_prefix_complete (b ++ text "/") rest)

  -- LocationsOverlap holds just of two equal locations, or of one that is below the other at a boundary
  -- between path components: s3://b/ab is not below s3://b/a.
  pub locations_overlap_iff :
      (a b : Text) → (locations_overlap a b ≡ true) ↔ ((a ≡ b) ⊎ IsBelow a b ⊎ IsBelow b a)
  unfolding locations_overlap
  locations_overlap_iff a b = (forth, back)
    where
      forth : locations_overlap a b ≡ true → (a ≡ b) ⊎ IsBelow a b ⊎ IsBelow b a
      forth h = elim (Bool-cases (text_eq a b)) [
        | inl same ↦ inl (text_eq_sound a b same)
        | inr differ ↦ elim (Bool-cases (starts_with a (b ++ text "/"))) [
          | inl below ↦ inr (inl (starts_with-IsBelow a b below))
          | inr apart ↦ inr (inr (starts_with-IsBelow b a (rw (differ, apart) at h)))
        ]
      ]

      back : (a ≡ b) ⊎ IsBelow a b ⊎ IsBelow b a → locations_overlap a b ≡ true
      back (inl e) = rw (e, text_eq_refl b) refl
      back (inr (inl below)) = rw (IsBelow-starts_with a b below) (ground arith)
      back (inr (inr below)) = rw (IsBelow-starts_with b a below) (ground arith)
