-- ===== src/Query/Listed.antt =====
-- A statement lists a directory once (src/planning/hive_query_cache.cpp).
use mathlib.Core.Path.{subst}
use duckdb_aws_glue.Base.{
  ok-injective, ℕ, Bool, true, false, not, ◌≡◌, refl, ap, sym, ◌∙◌, List, [], ◌∷◌, ◌++◌, Text, text,
  text_eq, text_eq_sound, text_eq_refl, ◌==◌, AllPass, take_while, drop_while, take_while-append,
  drop_while-append, Option, none, some, Outcome, ok, err, Bool-cases, inl, inr,
}
use duckdb_aws_glue.DuckDb.{DuckDb, r_trim_of}
use duckdb_aws_glue.Query.Listings.{
  table_key, Caches, lookup, listed_in, found_or, get_listing, get_statement_listing,
  get_directory_listing, get_all,
}

abbrev not_separator : ℕ → Bool
not_separator c = not (c == 31)

-- Two tables have the same key only if catalog, database and table are the same, where no name of a
-- catalog or a database holds the separator.
pub table_key-injective :
    (c d t c' d' t' : Text)
    → AllPass not_separator c
    → AllPass not_separator c'
    → AllPass not_separator d
    → AllPass not_separator d'
    → table_key c d t ≡ table_key c' d' t'
    → (c ≡ c') × (d ≡ d') × (t ≡ t')
table_key-injective c d t c' d' t' a a' b b' h =
    let same_catalog : c ≡ c' =
      sym (take_while-append not_separator c (31 ∷ (d ++ (31 ∷ t))) a refl)
      ∙ (ap (take_while not_separator) h
          ∙ take_while-append not_separator c' (31 ∷ (d' ++ (31 ∷ t'))) a' refl) in
    let rest : (31 ∷ (d ++ (31 ∷ t))) ≡ (31 ∷ (d' ++ (31 ∷ t'))) =
      sym (drop_while-append not_separator c (31 ∷ (d ++ (31 ∷ t))) a refl)
      ∙ (ap (drop_while not_separator) h
          ∙ drop_while-append not_separator c' (31 ∷ (d' ++ (31 ∷ t'))) a' refl) in
    let tail : (d ++ (31 ∷ t)) ≡ (d' ++ (31 ∷ t')) = cc rest in
    let same_database : d ≡ d' =
      sym (take_while-append not_separator d (31 ∷ t) b refl)
      ∙ (ap (take_while not_separator) tail
          ∙ take_while-append not_separator d' (31 ∷ t') b' refl) in
    let last : (31 ∷ t) ≡ (31 ∷ t') =
      sym (drop_while-append not_separator d (31 ∷ t) b refl)
      ∙ (ap (drop_while not_separator) tail
          ∙ drop_while-append not_separator d' (31 ∷ t') b' refl) in
    (same_catalog, same_database, cc last)

module _ ⦃db : DuckDb⦄ {L W : Type 0} (glob : Text → W → Outcome L × W) where
  -- whether a cache holds a listing under a key: the connection's or the statement's
  abbrev pub Holds : Bool → Text → L → Caches L → Type 0
  Holds true key l caches = lookup key caches.listings ≡ some l
  Holds false key l caches = lookup key caches.directory_listings ≡ some l

  lookup-cons :
      (key other : Text) (l m : L) (entries : List (Text × L))
      → lookup other entries ≡ none
      → lookup key entries ≡ some l
      → lookup key ((other, m) ∷ entries) ≡ some l
  lookup-cons key other l m entries n h = elim (Bool-cases (text_eq other key)) [
    | inl same ↦
        let e : other ≡ key = text_eq_sound other key same in
        let missing : lookup key entries ≡ none = rw (← e) n in absurd (cc (missing, h))
    | inr differ ↦ rw (differ) h
  ]

  found_or-Holds :
      (cached : Bool) (key : Text) (l : L) (o : Option L) (keep : L → Caches L) (caches : Caches L)
      (w : W) (r : Outcome L × W)
      → (o ≡ none → (m : L) → Holds cached key l (keep m))
      → Holds cached key l caches
      → Holds cached key l (found_or glob o caches w (listed_in glob keep caches r)).1.0
  found_or-Holds cached key l (some m) keep caches w r k h = h
  found_or-Holds cached key l none keep caches w (ok m, w') k h = k refl m
  found_or-Holds cached key l none keep caches w (err e, w') k h = h

  get_listing-Holds :
      (cached : Bool) (key : Text) (l : L) (other : Text) (caches : Caches L) (w : W)
      → Holds cached key l caches
      → Holds cached key l (get_listing glob other caches w).1.0
  unfolding get_listing
  get_listing-Holds true key l other caches w h =
      found_or-Holds true key l (lookup other caches.listings) _ caches w
        (glob (other ++ text "/**") w) (λ n m. lookup-cons key other l m caches.listings n h) h
  get_listing-Holds false key l other caches w h =
      found_or-Holds false key l (lookup other caches.listings) _ caches w
        (glob (other ++ text "/**") w) (λ n m. h) h

  get_statement_listing-Holds :
      (cached : Bool) (key : Text) (l : L) (other : Text) (caches : Caches L) (w : W)
      → Holds cached key l caches
      → Holds cached key l (get_statement_listing glob other caches w).1.0
  unfolding get_statement_listing
  get_statement_listing-Holds true key l other caches w h =
      found_or-Holds true key l (lookup other caches.directory_listings) _ caches w
        (glob (other ++ text "/**") w) (λ n m. h) h
  get_statement_listing-Holds false key l other caches w h =
      found_or-Holds false key l (lookup other caches.directory_listings) _ caches w
        (glob (other ++ text "/**") w)
        (λ n m. lookup-cons key other l m caches.directory_listings n h) h

  get_directory_listing-Holds :
      (cached : Bool) (key : Text) (l : L) (other : Text) (cached' : Bool) (caches : Caches L)
      (w : W)
      → Holds cached key l caches
      → Holds cached key l (get_directory_listing glob other cached' caches w).1.0
  unfolding get_directory_listing
  get_directory_listing-Holds cached key l other true caches w h =
      get_listing-Holds cached key l (r_trim_of other (text "/")) caches w h
  get_directory_listing-Holds cached key l other false caches w h =
      get_statement_listing-Holds cached key l (r_trim_of other (text "/")) caches w h

  get_all-Holds :
      (cached : Bool) (key : Text) (l : L) (between : List (Text × Bool)) (caches : Caches L)
      (w : W)
      → Holds cached key l caches
      → Holds cached key l (get_all glob between caches w).0
  unfolding get_all
  get_all-Holds cached key l [] caches w h = h
  get_all-Holds cached key l ((other, cached') ∷ between) caches w h =
      get_all-Holds cached key l between _ _
        (get_directory_listing-Holds cached key l other cached' caches w h)

  -- What was asked for is kept.
  found_or-kept :
      (cached : Bool) (key : Text) (l : L) (o : Option L) (keep : L → Caches L)
      (caches c₁ : Caches L) (w w₁ : W) (r : Outcome L × W)
      → (o ≡ some l → Holds cached key l caches)
      → Holds cached key l (keep l)
      → found_or glob o caches w (listed_in glob keep caches r) ≡ (ok l, (c₁, w₁))
      → Holds cached key l c₁
  found_or-kept cached key l (some m) keep caches c₁ w w₁ r have k h =
      subst (Holds cached key l) (ap (λ p. p.1.0) h)
        (have (ap some (ok-injective (ap (λ p. p.0) h))))
  found_or-kept cached key l none keep caches c₁ w w₁ (ok m, w') have k h =
      subst (Holds cached key l)
        (ap keep (sym (ok-injective (ap (λ p. p.0) h))) ∙ ap (λ p. p.1.0) h) k
  found_or-kept cached key l none keep caches c₁ w w₁ (err e, w') have k h =
      absurd (cc (ap (λ p. p.0) h))

  get_directory_listing-kept :
      (directory : Text) (cached : Bool) (caches c₁ : Caches L) (w w₁ : W) (l : L)
      → get_directory_listing glob directory cached caches w ≡ (ok l, (c₁, w₁))
      → Holds cached (r_trim_of directory (text "/")) l c₁
  unfolding get_directory_listing get_listing get_statement_listing
  get_directory_listing-kept directory true caches c₁ w w₁ l h =
      let key = r_trim_of directory (text "/") in
      found_or-kept true key l (lookup key caches.listings)
        (λ m. record caches { listings = (key, m) ∷ caches.listings }) caches c₁ w w₁
        (glob (key ++ text "/**") w) (λ e. e) (rw (text_eq_refl key) refl) h
  get_directory_listing-kept directory false caches c₁ w w₁ l h =
      let key = r_trim_of directory (text "/") in
      found_or-kept false key l (lookup key caches.directory_listings)
        (λ m. record caches { directory_listings = (key, m) ∷ caches.directory_listings }) caches c₁
        w w₁ (glob (key ++ text "/**") w) (λ e. e) (rw (text_eq_refl key) refl) h

  get_directory_listing-hit :
      (directory : Text) (cached : Bool) (caches : Caches L) (w : W) (l : L)
      → Holds cached (r_trim_of directory (text "/")) l caches
      → get_directory_listing glob directory cached caches w ≡ (ok l, (caches, w))
  unfolding get_directory_listing get_listing get_statement_listing
  get_directory_listing-hit directory true caches w l h = rw (h) refl
  get_directory_listing-hit directory false caches w l h = rw (h) refl

  -- A directory that was listed is not listed again while no listing is dropped, if both requests keep the listing in
  -- the same place, for the connection or for the statement: however many directories are asked for in between,
  -- in either way, the same directory, written with or without slashes at its end, has the same listing, and neither
  -- the file system nor a cache changes.
  pub get_directory_listing-once :
      (directory again : Text) (cached : Bool) (caches c₁ : Caches L) (w w₁ : W) (l : L)
      (between : List (Text × Bool))
      → get_directory_listing glob directory cached caches w ≡ (ok l, (c₁, w₁))
      → r_trim_of again (text "/") ≡ r_trim_of directory (text "/")
      → get_directory_listing glob again cached
          (get_all glob between c₁ w₁).0
          (get_all glob between c₁ w₁).1
        ≡ (ok l, get_all glob between c₁ w₁)
  get_directory_listing-once directory again cached caches c₁ w w₁ l between h same =
      get_directory_listing-hit again cached (get_all glob between c₁ w₁).0
        (get_all glob between c₁ w₁).1 l
        (subst (λ key. Holds cached key l (get_all glob between c₁ w₁).0) (sym same)
          (get_all-Holds cached (r_trim_of directory (text "/")) l between c₁ w₁
            (get_directory_listing-kept directory cached caches c₁ w w₁ l h)))
