-- ===== src/Tests/ViewTests.antt =====
-- Instances of the theorems about view bodies: a view of the catalog `glue` joins a CTE of its own, a table
-- of its database and one of the Glue catalog that is attached as `lake`.
use duckdb_aws_glue.Base.{
  ◌≡◌, inl, inr, refl, arith, true, false, List, [], ◌∷◌, Text, text, text_eq, if◌then◌else◌, none,
  some, ok, Bool-cases,
}
use duckdb_aws_glue.DuckDb.{lower_byte, is_prefix}
use duckdb_aws_glue.DuckDb.Ascii.{ascii}
use duckdb_aws_glue.Views.Body.{
  QualifiedName, Query, select_node, no_ctes, cte, base_table, join, null_expr, column_ref,
  no_exprs, expr,
}
use duckdb_aws_glue.Views.Walker.{is_visible}
use duckdb_aws_glue.Views.Names.{AttachedCatalog, Session, qualify_for_storage}
use duckdb_aws_glue.Views.Holds.{NodeHolds}
use duckdb_aws_glue.Views.Any.{AnyExpr}
use duckdb_aws_glue.Views.Collected.{Collected}
use duckdb_aws_glue.Views.Stored.{InSchemas, StoredName, NotNaming, qualify_for_storage-Holds}
use duckdb_aws_glue.Views.Reading.{
  Identifiers, ReadEnvironment, referenced_catalog_ids, attached_aliases, get_query, refused_id,
  external_type,
}
use duckdb_aws_glue.Views.Read.{FullName, IsAttached, get_query-FullName}

abbrev glue_catalog : AttachedCatalog
glue_catalog = record {
  oid = 1;
  name = text "glue";
  catalog_type = text "glue";
  region = text "eu";
  endpoint = [];
  known_catalog_id = text "1";
  fetched_catalog_id = ok (text "1");
  is_system = false;
  is_temporary = false;
  is_hidden = false;
  in_memory = false;
}

abbrev lake : AttachedCatalog
lake = record glue_catalog {
  oid = 2;
  name = text "lake";
  known_catalog_id = text "2";
  fetched_catalog_id = ok (text "2");
}

abbrev session : Session
session = record {
  names_catalog = λ name. ok (text_eq name (text "lake"));
  lookup_table = λ name.
      if text_eq name.catalog (text "temp")
      then ok none
      else ok (
          some (record {
            parent_catalog = if text_eq name.catalog (text "lake") then lake else glue_catalog;
            parent_schema = text "sales";
            entry_name = name.name;
          }));
  external_catalog_types = [];
  temp_catalog = text "temp";
  default_schema = text "main";
}

session-InSchemas : InSchemas session
session-InSchemas name entry h = λ e. ground (arith, h, e)

abbrev name : Text → Text → Text → QualifiedName
name c s n = record { catalog = c; schema = s; name = n }

abbrev reads : QualifiedName → Query
reads n =
    select_node no_ctes (base_table n) no_exprs no_exprs null_expr null_expr null_expr no_exprs

abbrev body : QualifiedName → QualifiedName → Query
body orders items =
    select_node (cte (text "recent") (reads orders) no_exprs no_ctes)
      (join (base_table (name [] [] (text "Recent"))) (base_table items)
        (column_ref (text "recent" ∷ text "id" ∷ [])) null_expr)
      (expr (column_ref (text "id" ∷ [])) no_exprs) no_exprs null_expr null_expr null_expr no_exprs

abbrev written : Query
written = body (name [] [] (text "orders")) (name [] (text "lake") (text "items"))

abbrev stored : Query
stored =
    body (name [] (text "sales") (text "orders")) (name (text "2") (text "sales") (text "items"))

written-stored : qualify_for_storage glue_catalog (text "sales") session written ≡ ok stored
unfolding qualify_for_storage text_eq ascii lower_byte
written-stored = refl

qualify_for_storage-Holds_example :
    (catalogs : List Text) × (is_visible (text "glue") catalogs ≡ true)
    × NodeHolds ⊥ (Collected session catalogs) AnyExpr written []
    × NodeHolds ⊥ StoredName (NotNaming catalogs) stored []
qualify_for_storage-Holds_example =
    qualify_for_storage-Holds glue_catalog (text "sales") session written stored session-InSchemas
      written-stored

abbrev identifiers : Identifiers
identifiers = record { starts_with = λ id p. is_prefix p id; less = λ a b. false }

abbrev environment : ReadEnvironment
environment = record {
  is_supported = true;
  parse = ok stored;
  databases = glue_catalog ∷ record lake { name = text "pond" } ∷ [];
  external_catalog_types = [];
  view_catalog = glue_catalog;
  view_schema = text "sales";
}

abbrev pond_aliases : List (Text × Text)
pond_aliases = (text "2", text "pond") ∷ []

environment-aliases :
    attached_aliases identifiers glue_catalog (text "2" ∷ []) environment.databases ≡ pond_aliases
unfolding attached_aliases text_eq ascii lower_byte
environment-aliases = refl

stored-ids : referenced_catalog_ids stored ≡ ok (stored, text "2" ∷ [])
unfolding referenced_catalog_ids ascii
stored-ids = refl

pond-IsAttached :
    (id : Text)
    → is_visible id (text "2" ∷ []) ≡ true
    → IsAttached
        (attached_aliases identifiers glue_catalog (text "2" ∷ []) environment.databases)
        id
pond-IsAttached id h = rw environment-aliases (elim (Bool-cases (ascii.ci_equals (text "2") id)) [
  | inl same ↦ (text "pond", rw same refl)
  | inr differ ↦ absurd (cc (rw differ at h))
])

get_query-FullName_example :
    (r : Query) × ((get_query identifiers environment (record { parsed = none; resolved = [] })).0
      ≡ ok r)
    × NodeHolds ⊥ FullName AnyExpr r []
get_query-FullName_example =
    get_query-FullName identifiers environment glue_catalog (text "sales") session written stored
      stored (text "2" ∷ []) session-InSchemas written-stored refl refl (λ e. cc e) stored-ids
      (unfold refused_id external_type in refl) pond-IsAttached
