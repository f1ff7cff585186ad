-- ===== src/Views/Visited.antt =====
-- A walk over a view body gives what its callbacks give (src/catalog/glue_view_names.cpp).
use mathlib.Core.Path.{subst}
use duckdb_aws_glue.Base.{
  List, [], ◌∷◌, Text, Outcome, ok, err, ◌>>=◌, ◌≡◌, refl, sym, ok-injective,
}
use duckdb_aws_glue.Views.Body.{
  QualifiedName, Query, select_node, set_operation_node, recursive_cte_node, other_node, Queries,
  no_queries, query, Ctes, no_ctes, cte, Ref, no_ref, base_table, join, subquery_ref, pivot,
  expression_list, empty_from, table_function, other_ref, Expr, null_expr, column_ref, star,
  subquery, operation, Exprs, no_exprs, expr,
}
use duckdb_aws_glue.Views.Walker.{
  visit_node, visit_nodes, visit_ctes, visit_ref, visit_expr, visit_exprs,
}
use duckdb_aws_glue.Views.Holds.{
  scope, NodeHolds, NodesHold, CtesHold, RefHolds, ExprHolds, ExprsHold, IfOk, returns, throws,
}

pub IfOk-bind {ℓ κ ℓ' κ'} :
    {A : Type ℓ} {P : A → Type κ} {B : Type ℓ'} {Q : B → Type κ'} {m : Outcome A}
    {f : A → Outcome B}
    → IfOk P m
    → ((a : A) → P a → IfOk Q (f a))
    → IfOk Q (m >>= f)
IfOk-bind (returns {a} h) k = k a h
IfOk-bind (throws thrown) k = throws thrown

pub IfOk-ok {ℓ κ} :
    {A : Type ℓ} {P : A → Type κ} {m : Outcome A} {a : A} → IfOk P m → m ≡ ok a → P a
IfOk-ok {P = P} (returns h) e = subst P (ok-injective e) h
IfOk-ok (throws thrown) e = cc

-- What is known of the state after a visit is known of it before, and gives `R` of the result.
abbrev pub Post : {S A : Type 0} → (S → Type 0) → S → (A → Type 0) → A × S → Type 0
Post G s R r = G r.1 → G s × R r.0

pub seen {ℓ} :
    {B : Type 0} {Q : B → Type ℓ} (m : Outcome (Unit {0})) (f : Unit {0} → Outcome B)
    → (m ≡ ok tt → IfOk Q (f tt))
    → IfOk Q (m >>= f)
seen (ok u) f k = k refl
seen (err e) f k = throws e

pub IfOk-scoped :
    {S B : Type 0} {Q : B → Type 0} {R : Ctes → S → Type 0} {m : Outcome (Ctes × (List Text × S))}
    (f : Ctes × (List Text × S) → Outcome B) (visible : List Text)
    → IfOk (λ r. (r.1.0 ≡ visible) × R r.0 r.1.1) m
    → ((c : Ctes) (s : S) → R c s → IfOk Q (f (c, (visible, s))))
    → IfOk Q (m >>= f)
IfOk-scoped {Q = Q} f visible (returns {a} (e, h)) k =
    subst (λ x. IfOk Q (f (a.0, (x, a.1.1)))) (sym e) (k a.0 a.1.1 h)
IfOk-scoped f visible (throws thrown) k = throws thrown

module _ {S : Type 0} (table : QualifiedName → List Text → S → Outcome (QualifiedName × S))
    (expression : Expr → Outcome (Unit {0})) (G : S → Type 0) (U : Type 0)
    (P₀ : List Text → QualifiedName → Type 0) (X₀ : Expr → Type 0)
    (P : List Text → QualifiedName → Type 0) (X : Expr → Type 0)
    (table-holds : (n : QualifiedName) (v : List Text) (s : S)
      → P₀ v n
      → IfOk (Post G s (P v)) (table n v s))
    (column-holds : (names : List Text)
      → X₀ (column_ref names)
      → expression (column_ref names) ≡ ok tt
      → X (column_ref names))
    (star-holds : (e r : List Text) (c c' : Exprs)
      → X₀ (star e r c)
      → expression (star e r c) ≡ ok tt
      → X (star e r c')) where
  mutual
    unfolding visit_node visit_nodes visit_ctes visit_ref visit_expr visit_exprs NodeHolds NodesHold
        CtesHold RefHolds ExprHolds ExprsHold

    pub visit_node-Holds :
        (q : Query) (v : List Text) (s : S)
        → NodeHolds U P₀ X₀ q v
        → IfOk (Post G s (λ q'. NodeHolds ⊥ P X q' v)) (visit_node table expression q v s)
    visit_node-Holds (select_node ctes from list groups condition having qualify mods) v s h =
        IfOk-scoped _ (scope ctes v) (visit_ctes-Hold ctes v s h.0) λ c s₁ hc.
          IfOk-bind (visit_ref-Holds from (scope ctes v) s₁ h.1) λ f hf.
            IfOk-bind (visit_exprs-Hold list (scope ctes v) f.1 h.2) λ l hl.
              IfOk-bind (visit_exprs-Hold groups (scope ctes v) l.1 h.3) λ m hm.
                IfOk-bind (visit_expr-Holds condition (scope ctes v) m.1 h.4) λ n hn.
                  IfOk-bind (visit_expr-Holds having (scope ctes v) n.1 h.5) λ o ho.
                    IfOk-bind (visit_expr-Holds qualify (scope ctes v) o.1 h.6) λ p hp.
                      IfOk-bind (visit_exprs-Hold mods (scope ctes v) p.1 h.7) λ q hq.
                        returns (λ g₇.
                          let (g₆, y₇) = hq g₇ in
                          let (g₅, y₆) = hp g₆ in
                          let (g₄, y₅) = ho g₅ in
                          let (g₃, y₄) = hn g₄ in
                          let (g₂, y₃) = hm g₃ in
                          let (g₁, y₂) = hl g₂ in
                          let (g₀, y₁) = hf g₁ in
                          let (g, y₀) = hc.1 g₀ in (g, rw hc.0 (y₀, y₁, y₂, y₃, y₄, y₅, y₆, y₇)))
    visit_node-Holds (set_operation_node ctes children mods) v s h =
        IfOk-scoped _ (scope ctes v) (visit_ctes-Hold ctes v s h.0) λ c s₁ hc.
          IfOk-bind (visit_nodes-Hold children (scope ctes v) s₁ h.1) λ n hn.
            IfOk-bind (visit_exprs-Hold mods (scope ctes v) n.1 h.2) λ m hm. returns (λ g₂.
              let (g₁, y₂) = hm g₂ in
              let (g₀, y₁) = hn g₁ in let (g, y₀) = hc.1 g₀ in (g, rw hc.0 (y₀, y₁, y₂)))
    visit_node-Holds (recursive_cte_node ctes name left right key_targets mods) v s h =
        IfOk-scoped _ (scope ctes v) (visit_ctes-Hold ctes v s h.0) λ c s₁ hc.
          IfOk-bind (visit_node-Holds left (scope ctes v) s₁ h.1) λ l hl.
            IfOk-bind (visit_node-Holds right (name ∷ scope ctes v) l.1 h.2) λ r hr.
              IfOk-bind (visit_exprs-Hold key_targets [] r.1 h.3) λ k hk.
                IfOk-bind (visit_exprs-Hold mods (scope ctes v) k.1 h.4) λ m hm. returns (λ g₄.
                  let (g₃, y₄) = hm g₄ in
                  let (g₂, y₃) = hk g₃ in
                  let (g₁, y₂) = hr g₂ in
                  let (g₀, y₁) = hl g₁ in
                  let (g, y₀) = hc.1 g₀ in (g, rw hc.0 (y₀, y₁, y₂, y₃, y₄)))
    visit_node-Holds (other_node ctes) v s h =
        IfOk-bind (visit_ctes-Hold ctes v s h.0) λ c hc. throws _

    visit_nodes-Hold :
        (q : Queries) (v : List Text) (s : S)
        → NodesHold U P₀ X₀ q v
        → IfOk (Post G s (λ q'. NodesHold ⊥ P X q' v)) (visit_nodes table expression q v s)
    visit_nodes-Hold no_queries v s h = returns (λ g. (g, tt))
    visit_nodes-Hold (query node rest) v s h = IfOk-bind (visit_node-Holds node v s h.0) λ n hn.
        IfOk-bind (visit_nodes-Hold rest v n.1 h.1)
          λ r hr. returns (λ g. let (g₁, b) = hr g in let (g₀, a) = hn g₁ in (g₀, (a, b)))

    visit_ctes-Hold :
        (q : Ctes) (v : List Text) (s : S)
        → CtesHold U P₀ X₀ q v
        → IfOk
            (λ (r : Ctes × (List Text × S)).
              (r.1.0 ≡ scope q v)
              × ((scope r.0 v ≡ scope q v) × (G r.1.1 → G s × CtesHold ⊥ P X r.0 v)))
            (visit_ctes table expression q v s)
    visit_ctes-Hold no_ctes v s h = returns (refl, (refl, λ g. (g, tt)))
    visit_ctes-Hold (cte name node key_targets rest) v s h =
        IfOk-bind (visit_node-Holds node v s h.0) λ n hn.
          IfOk-bind (visit_exprs-Hold key_targets [] n.1 h.1) λ k hk.
            IfOk-bind (visit_ctes-Hold rest (name ∷ v) k.1 h.2) λ r hr. returns (
              hr.0,
              (
                hr.1.0,
                λ g.
                    let (g₂, c) = hr.1.1 g in
                    let (g₁, b) = hk g₂ in let (g₀, a) = hn g₁ in (g₀, (a, b, c)),
              ),
            )

    visit_ref-Holds :
        (q : Ref) (v : List Text) (s : S)
        → RefHolds U P₀ X₀ q v
        → IfOk (Post G s (λ q'. RefHolds ⊥ P X q' v)) (visit_ref table expression q v s)
    visit_ref-Holds no_ref v s h = returns (λ g. (g, tt))
    visit_ref-Holds (base_table name) v s h = IfOk-bind (table-holds name v s h) λ n hn. returns hn
    visit_ref-Holds (join left right condition ranking) v s h =
        IfOk-bind (visit_ref-Holds left v s h.0) λ l hl.
          IfOk-bind (visit_ref-Holds right v l.1 h.1) λ r hr.
            IfOk-bind (visit_expr-Holds condition v r.1 h.2) λ c hc.
              IfOk-bind (visit_expr-Holds ranking v c.1 h.3) λ k hk. returns (λ g.
                let (g₃, d) = hk g in
                let (g₂, c') = hc g₃ in
                let (g₁, b) = hr g₂ in let (g₀, a) = hl g₁ in (g₀, (a, b, c', d)))
    visit_ref-Holds (subquery_ref node) v s h =
        IfOk-bind (visit_node-Holds node v s h) λ n hn. returns hn
    visit_ref-Holds (pivot source aggregates columns) v s h =
        IfOk-bind (visit_ref-Holds source v s h.0) λ l hl.
          IfOk-bind (visit_exprs-Hold aggregates v l.1 h.1) λ r hr.
            IfOk-bind (visit_exprs-Hold columns v r.1 h.2) λ c hc. returns (λ g.
              let (g₂, c') = hc g in let (g₁, b) = hr g₂ in let (g₀, a) = hl g₁ in (g₀, (a, b, c')))
    visit_ref-Holds (expression_list values) v s h =
        IfOk-bind (visit_exprs-Hold values v s h) λ n hn. returns hn
    visit_ref-Holds empty_from v s h = returns (λ g. (g, tt))
    visit_ref-Holds table_function v s h = throws _
    visit_ref-Holds other_ref v s h = throws _

    visit_expr-Holds :
        (q : Expr) (v : List Text) (s : S)
        → ExprHolds U P₀ X₀ q v
        → IfOk (Post G s (λ q'. ExprHolds ⊥ P X q' v)) (visit_expr table expression q v s)
    visit_expr-Holds null_expr v s h = returns (λ g. (g, tt))
    visit_expr-Holds (column_ref names) v s h =
        seen (expression (column_ref names)) _ λ e. returns (λ g. (g, column-holds names h e))
    visit_expr-Holds (star excluded renamed children) v s h =
        seen (expression (star excluded renamed children)) _ λ e.
          IfOk-bind (visit_exprs-Hold children v s h.1) λ c hc.
            returns
              (λ g. let (g₀, a) = hc g in (g₀, (star-holds excluded renamed children c.0 h.0 e, a)))
    visit_expr-Holds (subquery node children) v s h =
        IfOk-bind (visit_node-Holds node v s h.0) λ n hn.
          IfOk-bind (visit_exprs-Hold children v n.1 h.1)
            λ c hc. returns (λ g. let (g₁, b) = hc g in let (g₀, a) = hn g₁ in (g₀, (a, b)))
    visit_expr-Holds (operation children) v s h =
        IfOk-bind (visit_exprs-Hold children v s h) λ n hn. returns hn

    visit_exprs-Hold :
        (q : Exprs) (v : List Text) (s : S)
        → ExprsHold U P₀ X₀ q v
        → IfOk (Post G s (λ q'. ExprsHold ⊥ P X q' v)) (visit_exprs table expression q v s)
    visit_exprs-Hold no_exprs v s h = returns (λ g. (g, tt))
    visit_exprs-Hold (expr e rest) v s h = IfOk-bind (visit_expr-Holds e v s h.0) λ n hn.
        IfOk-bind (visit_exprs-Hold rest v n.1 h.1)
          λ r hr. returns (λ g. let (g₁, b) = hr g in let (g₀, a) = hn g₁ in (g₀, (a, b)))
