-- ===== src/Transactions/Attached.antt =====
-- Which metadata cache a transaction gets (GlueMetadataCacheState of
-- src/include/catalog/glue_transaction.hpp, Invalidate of src/catalog/glue_transaction.cpp).
use mathlib.Core.Path.{subst}
use duckdb_aws_glue.Base.{
  ℕ, ◌+◌, ◌≤◌, ◌≡◌, refl, sym, ap, ◌∙◌, arith, ◌==◌, Bool, true, false, List, [], ◌∷◌, Text,
  text_eq, text_eq_sound, if◌then◌else◌, Option, none, some, Bool-cases, inl, inr, ◌⊎◌,
}
use duckdb_aws_glue.Query.Listings.{lookup}
use duckdb_aws_glue.Transactions.Metadata.{
  CatalogCache, Metadata, no_metadata, erase_key, make_cache, with_new_cache, cache_or_new,
  get_cache, erased, erase_cache, clear_all, transaction_cache, invalidate,
}

-- What happens to the caches of a connection: a transaction starts on an attached catalog, with or
-- without the scope of a connection, a catalog is detached, a write in a transaction invalidates, or
-- a transaction is rolled back.
pub data Event : Type 0 where
  starting : Bool → Text → ℕ → Event
  detaching : Text → ℕ → Event
  invalidating : ℕ → Event
  rolling_back : Event

-- A cache and the attached catalog that it was handed out for.
pub record Handout : Type 0 where
  pub name : Text
  pub oid : ℕ
  pub id : ℕ

abbrev pub Given : Handout → List Handout → Type 0
Given h [] = ⊥
Given h (k ∷ l) = (h ≡ k) ⊎ Given h l

module _ {T P : Type 0} where
  -- what was handed out, and the caches
  unfoldable pub step : Event → Metadata T P × List Handout → Metadata T P × List Handout
  unfolding transaction_cache erase_cache invalidate clear_all
  step (starting scoped name oid) (m, log) =
      let r = transaction_cache scoped name oid m in
      (r.1, record { name = name; oid = oid; id = r.0 } ∷ log)
  step (detaching name oid) (m, log) = (erase_cache name oid m, log)
  step (invalidating id) (m, log) = (invalidate id m, log)
  step rolling_back (m, log) = (clear_all m, log)

  unfoldable pub run : List Event → Metadata T P × List Handout → Metadata T P × List Handout
  unfolding step
  run [] s = s
  run (event ∷ events) s = run events (step event s)

abbrev Agree : Handout → Handout → Type 0
Agree h k = h.id ≡ k.id → (h.name ≡ k.name) × (h.oid ≡ k.oid)

record Owned (caches : List (Text × CatalogCache)) (next_id : ℕ) (log : List Handout) : Type 0 where
  made : (h : Handout) → Given h log → h.id ≤ next_id
  apart : (h k : Handout) → Given h log → Given k log → Agree h k
  held :
      (name : Text) (entry : CatalogCache)
      → lookup name caches ≡ some entry
      → Given (record { name = name; oid = entry.attach_oid; id = entry.cache }) log

-- a cache that was not handed out before
Owned-fresh :
    (caches : List (Text × CatalogCache)) (next_id : ℕ) (log : List Handout) (name : Text) (oid : ℕ)
    → Owned caches next_id log
    → Owned caches (next_id + 1) (record { name = name; oid = oid; id = next_id + 1 } ∷ log)
Owned-fresh caches next_id log name oid o = record {
  made = made;
  apart = apart;
  held = λ n entry e. inr (o.held n entry e);
}
  where
    made :
        (h : Handout)
        → Given h (record { name = name; oid = oid; id = next_id + 1 } ∷ log)
        → h.id ≤ next_id + 1
    made h (inl same) = rw same (omega arith)
    made h (inr old) = omega (arith, o.made h old)

    apart :
        (h k : Handout)
        → Given h (record { name = name; oid = oid; id = next_id + 1 } ∷ log)
        → Given k (record { name = name; oid = oid; id = next_id + 1 } ∷ log)
        → Agree h k
    apart h k (inl p) (inl q) e = rw (p, q) (refl, refl)
    apart h k (inl p) (inr q) e =
        absurd (omega (arith, ap (λ (x : Handout). x.id) p, o.made k q, e))
    apart h k (inr p) (inl q) e =
        absurd (omega (arith, ap (λ (x : Handout). x.id) q, o.made h p, e))
    apart h k (inr p) (inr q) e = o.apart h k p q e

-- a cache that was handed out before, to the same catalog
Owned-again :
    (caches : List (Text × CatalogCache)) (next_id : ℕ) (log : List Handout) (g : Handout)
    → Given g log
    → Owned caches next_id log
    → Owned caches next_id (g ∷ log)
Owned-again caches next_id log g there o = record {
  made = λ h h_in. o.made h (before h h_in);
  apart = λ h k h_in k_in. o.apart h k (before h h_in) (before k k_in);
  held = λ n entry e. inr (o.held n entry e);
}
  where
    before : (h : Handout) → Given h (g ∷ log) → Given h log
    before h (inl same) = subst (λ x. Given x log) (sym same) there
    before h (inr old) = old

lookup-erase_self : {A : Type 0} (n : Text) (l : List (Text × A)) → lookup n (erase_key n l) ≡ none
lookup-erase_self n [] = refl
lookup-erase_self n ((k, b) ∷ l) = elim (Bool-cases (text_eq k n)) [
  | inl same ↦ rw same (lookup-erase_self n l)
  | inr differ ↦ rw (differ, differ) (lookup-erase_self n l)
]

lookup-erase_other :
    {A : Type 0} (name n : Text) (l : List (Text × A))
    → text_eq name n ≡ false
    → lookup n (erase_key name l) ≡ lookup n l
lookup-erase_other name n [] d = refl
lookup-erase_other name n ((k, b) ∷ l) d = elim (Bool-cases (text_eq k name)) [
  | inl same ↦
      let other : text_eq k n ≡ false = rw (text_eq_sound k name same) d in
      rw (same, other) (lookup-erase_other name n l d)
  | inr differ ↦
      rw differ (ap (λ rest. if text_eq k n then some b else rest) (lookup-erase_other name n l d))
]

lookup-erase_key :
    {A : Type 0} (name n : Text) (a : A) (l : List (Text × A))
    → lookup n (erase_key name l) ≡ some a
    → lookup n l ≡ some a
lookup-erase_key name n a l h = elim (Bool-cases (text_eq name n)) [
  | inl same ↦
      let e : name ≡ n = text_eq_sound name n same in
      let gone : lookup n (erase_key name l) ≡ none = rw e (lookup-erase_self n l) in
      absurd (cc (gone, h))
  | inr differ ↦ sym (lookup-erase_other name n l differ) ∙ h
]

Owned-fewer :
    (caches fewer : List (Text × CatalogCache)) (next_id : ℕ) (log : List Handout)
    → ((n : Text) (e : CatalogCache) → lookup n fewer ≡ some e → lookup n caches ≡ some e)
    → Owned caches next_id log
    → Owned fewer next_id log
Owned-fewer caches fewer next_id log sub o = record {
  made = o.made;
  apart = o.apart;
  held = λ n e h. o.held n e (sub n e h);
}

-- the entry that a new cache gets
Owned-entered :
    (caches : List (Text × CatalogCache)) (next_id : ℕ) (log : List Handout) (name : Text)
    (entry : CatalogCache)
    → Given (record { name = name; oid = entry.attach_oid; id = entry.cache }) log
    → Owned caches next_id log
    → Owned ((name, entry) ∷ erase_key name caches) next_id log
Owned-entered caches next_id log name entry there o = record {
  made = o.made;
  apart = o.apart;
  held = held;
}
  where
    held :
        (n : Text) (e : CatalogCache)
        → lookup n ((name, entry) ∷ erase_key name caches) ≡ some e
        → Given (record { name = n; oid = e.attach_oid; id = e.cache }) log
    held n e h = elim (Bool-cases (text_eq name n)) [
      | inl same ↦
          let p : name ≡ n = text_eq_sound name n same in
          let q : entry ≡ e = cc (rw same at h) in
          subst (λ x. Given (record { name = x; oid = e.attach_oid; id = e.cache }) log) p
            (subst
              (λ (x : CatalogCache).
                Given (record { name = name; oid = x.attach_oid; id = x.cache }) log)
              q there)
      | inr differ ↦ o.held n e (lookup-erase_key name n e caches (rw differ at h))
    ]

module _ {T P : Type 0} where
  abbrev Holds : Metadata T P × List Handout → Type 0
  Holds s = Owned s.0.caches s.0.next_id s.1

  with_new_cache-Holds :
      (name : Text) (oid : ℕ) (m : Metadata T P) (log : List Handout)
      → Holds (m, log)
      → Holds (
        (with_new_cache name oid m).1,
        record { name = name; oid = oid; id = (with_new_cache name oid m).0 } ∷ log,
      )
  unfolding make_cache
  with_new_cache-Holds name oid m log o =
      Owned-entered m.caches (m.next_id + 1) _ name
        (record { attach_oid = oid; cache = m.next_id + 1 }) (inl refl)
        (Owned-fresh m.caches m.next_id log name oid o)

  cache_or_new-Holds :
      (found : Option CatalogCache) (name : Text) (oid : ℕ) (m : Metadata T P) (log : List Handout)
      → lookup name m.caches ≡ found
      → Holds (m, log)
      → Holds (
        (cache_or_new found name oid m).1,
        record { name = name; oid = oid; id = (cache_or_new found name oid m).0 } ∷ log,
      )
  cache_or_new-Holds none name oid m log e o = with_new_cache-Holds name oid m log o
  cache_or_new-Holds (some entry) name oid m log e o = elim (Bool-cases (entry.attach_oid == oid)) [
    | inl same ↦
        let p : entry.attach_oid ≡ oid = ground (arith, same) in
        rw same (
          Owned-again m.caches m.next_id log (record { name = name; oid = oid; id = entry.cache })
            (subst (λ x. Given (record { name = name; oid = x; id = entry.cache }) log) p
              (o.held name entry e))
            o)
    | inr differ ↦ rw differ (with_new_cache-Holds name oid m log o)
  ]

  erased-Holds :
      (found : Option CatalogCache) (name : Text) (oid : ℕ) (m : Metadata T P) (log : List Handout)
      → Holds (m, log)
      → Holds (erased found name oid m, log)
  erased-Holds none name oid m log o = o
  erased-Holds (some entry) name oid m log o = elim (Bool-cases (entry.attach_oid == oid)) [
    | inl same ↦ rw same (
        Owned-fewer m.caches (erase_key name m.caches) m.next_id log
          (λ n e h. lookup-erase_key name n e m.caches h) o)
    | inr differ ↦ rw differ o
  ]

  step-Holds : (event : Event) (s : Metadata T P × List Handout) → Holds s → Holds (step event s)
  unfolding step transaction_cache get_cache make_cache erase_cache invalidate clear_all
  step-Holds (starting true name oid) (m, log) o = cache_or_new-Holds _ name oid m log refl o
  step-Holds (starting false name oid) (m, log) o = Owned-fresh m.caches m.next_id log name oid o
  step-Holds (detaching name oid) (m, log) o = erased-Holds (lookup name m.caches) name oid m log o
  step-Holds (invalidating id) (m, log) o = o
  step-Holds rolling_back (m, log) o = o

  run-Holds :
      (events : List Event) (s : Metadata T P × List Handout) → Holds s → Holds (run events s)
  unfolding run
  run-Holds [] s o = o
  run-Holds (event ∷ events) s o = run-Holds events (step event s) (step-Holds event s o)

-- A metadata cache never serves two attached catalogs: whatever transactions start and roll back,
-- whatever is detached and attached again, under the same name too, and invalidated, two transactions of
-- a connection that were given the same cache were started on the same attached catalog.
pub run-apart :
    (T P : Type 0) (events : List Event) (h k : Handout)
    → Given h (run {T = T} {P = P} events (no_metadata, [])).1
    → Given k (run {T = T} {P = P} events (no_metadata, [])).1
    → h.id ≡ k.id
    → (h.name ≡ k.name) × (h.oid ≡ k.oid)
run-apart T P events h k a b =
    (run-Holds {T = T} {P = P} events (no_metadata, []) start).apart h k a b
  where
    start : Owned [] 0 []
    start = record { made = λ x g. absurd g; apart = λ x y g. absurd g; held = λ n e g. cc }
