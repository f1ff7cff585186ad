-- ===== src/Views/Names.antt =====
-- The names of tables in the body of a view: QualifyForStorage and RefuseCatalogQualifiedColumns
-- (src/catalog/glue_view_names.cpp). What DuckDB knows of the catalogs and tables of a session is
-- the argument `session`.
use duckdb_aws_glue.Base.{
  ℕ, ◌==◌, Bool, false, not, ◌&&◌, ◌||◌, List, [], ◌∷◌, ◌++◌, Text, text, text_eq, is_empty, any,
  if◌then◌else◌, Option, none, some, Outcome, ok, err, ◌>>=◌, binder,
}
use duckdb_aws_glue.DuckDb.{DuckDb, ci_equals}
use duckdb_aws_glue.Views.Body.{QualifiedName, Query, Expr, column_ref, star}
use duckdb_aws_glue.Views.Walker.{is_visible, walk}

-- A catalog that is attached: `oid` tells it apart, the region, endpoint and catalog ids are those of a
-- Glue catalog. `fetched_catalog_id` is what FetchCatalogId comes back with.
pub record AttachedCatalog : Type 0 where
  pub oid : ℕ
  pub name : Text
  pub catalog_type : Text
  pub region : Text
  pub endpoint : Text
  pub known_catalog_id : Text
  pub fetched_catalog_id : Outcome Text
  pub is_system : Bool
  pub is_temporary : Bool
  pub is_hidden : Bool
  pub in_memory : Bool

pub record TableEntry : Type 0 where
  pub parent_catalog : AttachedCatalog
  pub parent_schema : Text
  pub entry_name : Text

-- What the session answers: whether a schema of this name is a catalog (BindSchemaOrCatalog), the table
-- of a name (LookupTable), the types of ExternalCatalogTypes, and DuckDB's names for the temporary
-- catalog and the default schema.
pub record Session : Type 0 where
  pub names_catalog : Text → Outcome Bool
  pub lookup_table : QualifiedName → Outcome (Option TableEntry)
  pub external_catalog_types : List Text
  pub temp_catalog : Text
  pub default_schema : Text

abbrev external_prefix : Text
external_prefix = text "external:"

-- ExternalIdentity
unfoldable pub external_identity : AttachedCatalog → Text
external_identity catalog = external_prefix ++ (catalog.catalog_type ++ (text ":" ++ catalog.name))

-- UsableExternalCatalog
unfoldable pub usable_external_catalog : AttachedCatalog → Bool
usable_external_catalog catalog =
    not catalog.is_system && not catalog.is_hidden && not catalog.in_memory

abbrev pub is_glue_type : AttachedCatalog → Bool
is_glue_type catalog = text_eq catalog.catalog_type (text "glue")

-- the id of a Glue catalog: what Glue says, else that which it was attached by
unfoldable pub catalog_id_of : AttachedCatalog → Outcome Text
catalog_id_of catalog =
    catalog.fetched_catalog_id >>= λ id. ok (if is_empty id then catalog.known_catalog_id else id)

module _ ⦃db : DuckDb⦄ where
  -- SameGlueService
  unfoldable pub same_glue_service : AttachedCatalog → AttachedCatalog → Bool
  same_glue_service a b = ci_equals a.region b.region && ci_equals a.endpoint b.endpoint

  abbrev pub Stored : Type 0
  Stored = Outcome (QualifiedName × List Text)

  -- a table of another catalog that is not Glue
  unfoldable pub store_external : Session → TableEntry → QualifiedName → List Text → Stored
  unfolding external_identity usable_external_catalog
  store_external session entry name catalogs =
      if not (is_visible entry.parent_catalog.catalog_type session.external_catalog_types)
      then err binder
      else if not (usable_external_catalog entry.parent_catalog)
      then err binder
      else ok (
        record {
          catalog = external_identity entry.parent_catalog;
          schema = entry.parent_schema;
          name = entry.entry_name;
        },
        name.catalog ∷ catalogs,
      )

  -- a table of another Glue catalog, or of the view's own under another alias
  unfoldable pub store_glue : AttachedCatalog → TableEntry → QualifiedName → List Text → Stored
  unfolding same_glue_service catalog_id_of
  store_glue view_catalog entry name catalogs =
      if not (same_glue_service entry.parent_catalog view_catalog)
      then err binder
      else catalog_id_of entry.parent_catalog >>= λ id.
          if is_empty id
          then err binder
          else catalog_id_of view_catalog >>= λ own. ok (
            record {
              catalog = if ci_equals id own then [] else id;
              schema = entry.parent_schema;
              name = entry.entry_name;
            },
            name.catalog ∷ catalogs,
          )

  abbrev pub store_found :
      AttachedCatalog → Session → Option TableEntry → QualifiedName → List Text → Stored
  store_found view_catalog session none name catalogs = err binder
  store_found view_catalog session (some entry) name catalogs =
      if is_glue_type entry.parent_catalog
      then store_glue view_catalog entry name catalogs
      else store_external session entry name catalogs

  -- a bare name, once it was looked up
  abbrev pub store_bare : AttachedCatalog → Option TableEntry → List Text → Stored
  store_bare view_catalog none catalogs = err binder
  store_bare view_catalog (some entry) catalogs =
      if entry.parent_catalog.oid == view_catalog.oid
      then ok
          (record { catalog = []; schema = entry.parent_schema; name = entry.entry_name }, catalogs)
      else err binder

  abbrev pub first_of :
      Option TableEntry → Outcome (Option TableEntry) → Outcome (Option TableEntry)
  first_of (some entry) next = ok (some entry)
  first_of none next = next

  -- the lookups of a bare name: a temporary table, the view's database, the search path
  unfoldable pub lookup_bare :
      AttachedCatalog → Text → Session → QualifiedName → Outcome (Option TableEntry)
  lookup_bare view_catalog view_schema session name =
      session.lookup_table (record {
        catalog = session.temp_catalog;
        schema = session.default_schema;
        name = name.name;
      })
      >>= λ temporary. first_of temporary (
          session.lookup_table
            (record { catalog = view_catalog.name; schema = view_schema; name = name.name })
          >>= λ own. first_of own (session.lookup_table name))

  -- x.t names catalog x when one is attached under that name
  unfoldable pub bind_catalog : Session → QualifiedName → Outcome QualifiedName
  bind_catalog session name =
      if is_empty name.catalog && not (is_empty name.schema)
      then session.names_catalog name.schema >>= (λ names.
        ok
          (if names then record { catalog = name.schema; schema = []; name = name.name } else name))
      else ok name

  -- the callback of QualifyForStorage, with the catalogs that the body names
  unfoldable pub store_name :
      AttachedCatalog → Text → Session → QualifiedName → List Text → List Text → Stored
  unfolding bind_catalog lookup_bare store_glue store_external
  store_name view_catalog view_schema session written visible catalogs =
      bind_catalog session written >>= λ name.
      if not (is_empty name.catalog)
      then session.lookup_table name
        >>= (λ found. store_found view_catalog session found name catalogs)
      else if not (is_empty name.schema) || is_visible name.name visible
      then ok (written, catalogs)
      else lookup_bare view_catalog view_schema session name >>= λ found.
          store_bare view_catalog found catalogs

  -- whether a column reference or a star names one of the catalogs
  unfoldable pub names_one_of : List Text → Expr → Bool
  names_one_of catalogs (column_ref []) = false
  names_one_of catalogs (column_ref (first ∷ rest)) =
      not (is_empty rest) && is_visible first catalogs
  names_one_of catalogs (star excluded renamed children) =
      any (λ name. is_visible name catalogs) excluded
      || any (λ name. is_visible name catalogs) renamed
  names_one_of catalogs _ = false

  unfoldable pub refuse_column : List Text → Expr → Outcome (Unit {0})
  unfolding names_one_of
  refuse_column catalogs e = if names_one_of catalogs e then err binder else ok tt

-- callbacks that change nothing
abbrev pub same_table : {S : Type 0} → QualifiedName → List Text → S → Outcome (QualifiedName × S)
same_table name visible s = ok (name, s)

abbrev pub any_expression : Expr → Outcome (Unit {0})
any_expression e = ok tt

module _ ⦃db : DuckDb⦄ where
  -- RefuseCatalogQualifiedColumns
  unfoldable pub refuse_catalog_qualified_columns : List Text → Query → Outcome (Query × Unit {0})
  unfolding walk refuse_column
  refuse_catalog_qualified_columns catalogs q = walk same_table (refuse_column catalogs) q tt

  -- QualifyForStorage
  unfoldable pub qualify_for_storage : AttachedCatalog → Text → Session → Query → Outcome Query
  unfolding walk store_name refuse_catalog_qualified_columns
  qualify_for_storage view_catalog view_schema session q =
      walk (store_name view_catalog view_schema session) any_expression q (view_catalog.name ∷ [])
      >>= λ stored. refuse_catalog_qualified_columns stored.1 stored.0 >>= λ checked. ok checked.0
