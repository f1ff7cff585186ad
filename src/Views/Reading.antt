-- ===== src/Views/Reading.antt =====
-- How the body of a stored view is read: ReferencedCatalogIds, AttachedAliases, ResolveForReading and
-- PinToCatalog (src/catalog/glue_view_names.cpp), and GlueView::GetQuery (src/catalog/glue_view.cpp).
use duckdb_aws_glue.Base.{
  ℕ, ◌==◌, Bool, true, not, ◌&&◌, ◌||◌, List, [], ◌∷◌, ◌++◌, Text, text, is_empty, any, take_while,
  drop, if◌then◌else◌, Option, none, some, Outcome, ok, err, ◌>>=◌, binder,
}
use duckdb_aws_glue.DuckDb.{DuckDb, ci_equals}
use duckdb_aws_glue.Query.Listings.{lookup}
use duckdb_aws_glue.Views.Body.{QualifiedName, Query}
use duckdb_aws_glue.Views.Walker.{is_visible, walk}
use duckdb_aws_glue.Views.Names.{
  AttachedCatalog, external_identity, usable_external_catalog, is_glue_type, same_glue_service,
  any_expression,
}

-- What DuckDB's Identifier does: StartsWith, and whether one is less than the other.
pub record Identifiers : Type 0 where
  pub starts_with : Text → Text → Bool
  pub less : Text → Text → Bool

module _ ⦃db : DuckDb⦄ where
  -- the alias of a catalog id; a map of identifiers looks keys up in any case
  abbrev pub alias_of : Text → List (Text × Text) → Option Text
  alias_of id [] = none
  alias_of id ((key, alias) ∷ rest) = if ci_equals key id then some alias else alias_of id rest

  -- `aliases[id] = alias`, in a map that is sorted by its keys
  abbrev pub set_alias : Identifiers → Text → Text → List (Text × Text) → List (Text × Text)
  set_alias identifiers id alias [] = (id, alias) ∷ []
  set_alias identifiers id alias ((key, old) ∷ rest) =
      let others = set_alias identifiers id alias rest in
      if ci_equals key id
      then (key, alias) ∷ rest
      else if identifiers.less id key
      then (id, alias) ∷ (key, old) ∷ rest
      else (key, old) ∷ others

  abbrev pub collect_id :
      QualifiedName → List Text → List Text → Outcome (QualifiedName × List Text)
  collect_id name visible ids = ok (
    name,
    if is_empty name.catalog || is_visible name.catalog ids then ids else name.catalog ∷ ids,
  )

  -- ReferencedCatalogIds
  unfoldable pub referenced_catalog_ids : Query → Outcome (Query × List Text)
  unfolding walk
  referenced_catalog_ids q = walk collect_id any_expression q []

  abbrev pub resolved_name : Option Text → QualifiedName → Outcome QualifiedName
  resolved_name none name = err binder
  resolved_name (some alias) name =
      ok (record { catalog = alias; schema = name.schema; name = name.name })

  -- the callback of ResolveForReading
  unfoldable pub resolve_name :
      List (Text × Text) → QualifiedName → List Text → Unit {0} → Outcome (QualifiedName × Unit {0})
  resolve_name aliases name visible s =
      if is_empty name.catalog
      then ok (name, s)
      else resolved_name (alias_of name.catalog aliases) name >>= λ name'. ok (name', s)

  unfoldable pub resolve_for_reading : List (Text × Text) → Query → Outcome (Query × Unit {0})
  unfolding walk resolve_name
  resolve_for_reading aliases q = walk (resolve_name aliases) any_expression q tt

  -- the callback of PinToCatalog
  unfoldable pub pin_name : Text → Text → QualifiedName → List Text → QualifiedName
  pin_name catalog_name schema_name name visible =
      if is_empty name.catalog && not (is_empty name.schema)
      then record { catalog = catalog_name; schema = name.schema; name = name.name }
      else if is_empty name.catalog && not (is_visible name.name visible)
      then record { catalog = catalog_name; schema = schema_name; name = name.name }
      else name

  abbrev pub pin_table :
      Text → Text → QualifiedName → List Text → Unit {0} → Outcome (QualifiedName × Unit {0})
  pin_table catalog_name schema_name name visible s =
      ok (pin_name catalog_name schema_name name visible, s)

  unfoldable pub pin_to_catalog : Text → Text → Query → Outcome (Query × Unit {0})
  unfolding walk pin_name
  pin_to_catalog catalog_name schema_name q =
      walk (pin_table catalog_name schema_name) any_expression q tt

module _ ⦃db : DuckDb⦄ (identifiers : Identifiers) where
  -- what the loop of AttachedAliases does for a database
  abbrev better : Option Text → Text → Bool
  better none alias = true
  better (some old) alias = identifiers.less alias old

  unfoldable pub with_database :
      AttachedCatalog → List Text → AttachedCatalog → List (Text × Text) → List (Text × Text)
  unfolding external_identity usable_external_catalog same_glue_service
  with_database view_catalog ids catalog aliases =
      if catalog.is_system || catalog.is_temporary
      then aliases
      else if not (is_glue_type catalog)
      then if is_visible (external_identity catalog) ids && usable_external_catalog catalog
        then set_alias identifiers (external_identity catalog) catalog.name aliases
        else aliases
      else if not (is_visible catalog.known_catalog_id ids)
          || not (same_glue_service catalog view_catalog)
      then aliases
      else if better (alias_of catalog.known_catalog_id aliases) catalog.name
      then set_alias identifiers catalog.known_catalog_id catalog.name aliases
      else aliases

  unfoldable pub attached_aliases_from :
      AttachedCatalog → List Text → List AttachedCatalog → List (Text × Text) → List (Text × Text)
  unfolding with_database
  attached_aliases_from view_catalog ids [] aliases = aliases
  attached_aliases_from view_catalog ids (catalog ∷ rest) aliases =
      attached_aliases_from view_catalog ids rest (with_database view_catalog ids catalog aliases)

  -- AttachedAliases
  unfoldable pub attached_aliases :
      AttachedCatalog → List Text → List AttachedCatalog → List (Text × Text)
  unfolding attached_aliases_from
  attached_aliases view_catalog ids databases = attached_aliases_from view_catalog ids databases []

  -- IsExternal and ExternalType
  abbrev pub is_external : Text → Bool
  is_external id = identifiers.starts_with id (text "external:")

  abbrev not_colon : ℕ → Bool
  not_colon c = not (c == b':')

  unfoldable pub external_type : Text → Text
  external_type id = take_while not_colon (drop 9 id)

  -- whether GetQuery refuses an id for the type of its catalog
  unfoldable pub refused_id : List Text → Text → Bool
  unfolding external_type
  refused_id types id = is_external id && not (is_visible (external_type id) types)

  -- the name under which GetQuery keeps a resolved body
  unfoldable pub signature : List (Text × Text) → Text
  signature [] = []
  signature ((id, alias) ∷ rest) = id ++ (text "=" ++ (alias ++ (text ";" ++ signature rest)))

-- The state of a GlueView: the parsed body with its ids, and the resolved bodies.
pub record ViewState : Type 0 where
  pub parsed : Option (Query × List Text)
  pub resolved : List (Text × Query)

-- What GetQuery is called with: whether the view IsSupported, the parse of its SQL, the databases that are
-- attached and the settings, and the catalog and schema of the view.
pub record ReadEnvironment : Type 0 where
  pub is_supported : Bool
  pub parse : Outcome Query
  pub databases : List AttachedCatalog
  pub external_catalog_types : List Text
  pub view_catalog : AttachedCatalog
  pub view_schema : Text

module _ ⦃db : DuckDb⦄ (identifiers : Identifiers) (env : ReadEnvironment) where
  -- the first use of the view: a failure to parse is a BinderException
  abbrev parse_error : Outcome Query → Outcome Query
  parse_error (ok q) = ok q
  parse_error (err e) = err binder

  unfoldable pub parse_body : Outcome (Query × List Text)
  unfolding referenced_catalog_ids pin_to_catalog
  parse_body = parse_error env.parse >>= λ q. referenced_catalog_ids q >>= λ (q', ids).
      if is_empty ids
      then pin_to_catalog env.view_catalog.name env.view_schema q'
        >>= (λ pinned. ok (pinned.0, ids))
      else ok (q', ids)

  -- the body, resolved and pinned
  unfoldable pub resolve_body : List (Text × Text) → Query → Outcome Query
  unfolding resolve_for_reading pin_to_catalog
  resolve_body aliases q = resolve_for_reading aliases q >>= λ named.
      pin_to_catalog env.view_catalog.name env.view_schema named.0 >>= λ pinned. ok pinned.0

  abbrev keep_resolved : Text → Outcome Query → ViewState → Outcome Query × ViewState
  keep_resolved key (err e) v = (err e, v)
  keep_resolved key (ok q) v = (ok q, record v { resolved = (key, q) ∷ v.resolved })

  abbrev resolved_or :
      Option Query → List (Text × Text) → Query → ViewState → Outcome Query × ViewState
  resolved_or (some q) aliases parsed v = (ok q, v)
  resolved_or none aliases parsed v =
      keep_resolved (signature identifiers aliases) (resolve_body aliases parsed) v

  -- what follows the parse
  unfoldable pub read_parsed : Query × List Text → ViewState → Outcome Query × ViewState
  unfolding refused_id attached_aliases signature resolve_body
  read_parsed (parsed, ids) v =
      if is_empty ids
      then (ok parsed, v)
      else if any (refused_id identifiers env.external_catalog_types) ids
      then (err binder, v)
      else let aliases = attached_aliases identifiers env.view_catalog ids env.databases in
        resolved_or (lookup (signature identifiers aliases) v.resolved) aliases parsed v

  abbrev with_parsed :
      Option (Query × List Text)
      → Outcome (Query × List Text)
      → ViewState
      → Outcome Query × ViewState
  with_parsed (some parsed) body v = read_parsed parsed v
  with_parsed none (ok parsed) v = read_parsed parsed (record v { parsed = some parsed })
  with_parsed none (err e) v = (err e, v)

  -- GetQuery
  unfoldable pub get_query : ViewState → Outcome Query × ViewState
  unfolding parse_body read_parsed
  get_query v = if not env.is_supported then (err binder, v) else with_parsed v.parsed parse_body v
