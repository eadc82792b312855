-- ===== src/Repository/Queries.antt =====
-- repository/query.go, interfaces.go and error_helpers.go: options, and how a query is built.
use ais_pkg.Prelude.{
  ℕ, Bool, true, false, List, [], ◌∷◌, ◌++◌, Option, some, none, Result, ok, err, ◌>>=◌, is_empty,
  if◌then◌else◌,
}
use ais_pkg.Prelude.Text.{Text, codes, trim_space}
use ais_pkg.Prelude.Int.{ℤ}
use ais_pkg.Errors.Values.{
  GoError, biz, biz_caused, wrapped, validation, other, code_invalid_argument,
}
use ais_pkg.Sql.Words.{
  SqlReason, SqlError, dangerous_keyword, invalid_format, invalid_column, invalid_direction,
  missing_join_keyword, missing_on_clause, invalid_join_type,
}
use ais_pkg.Sql.Checks.{validate_order_by, validate_select, validate_joins}
use ais_pkg.Repository.Tenant.{
  TenantContext, ModelInfo, Query, given, add_error, where_also, apply_tenant_scope,
}
use ais_pkg.Repository.Updates.{Schema}

-- A primary key as normalizePrimaryID gives it: the text, or an ID of package ulid.
pub data PrimaryId : Type 0 where
  text_id ulid_id : Text → PrimaryId

-- The conditions of the program and of its callers: `id = ?`, `id IN ?`, SQL with its arguments, and
-- a struct or a map.
pub data Given (W : Type 0) : Type 0 where
  id_is : PrimaryId → Given W
  id_in : List PrimaryId → Given W
  raw : Text → List W → Given W
  structured : W → Given W

-- A gorm.DB with what is asked of it.
pub record Built (W : Type 0) : Type 0 where
  pub core : Query (Given W)
  pub select : List Text
  pub joins : List Text
  pub order_by : Text
  pub preloads : List Text
  pub unscoped : Bool
  pub offset : Option ℤ
  pub limit : Option ℕ

-- QueryOption
pub record QueryOption (W : Type 0) : Type 0 where
  pub preloads : List Text
  pub scopes : List (Built W → Built W)
  pub order_by : Text
  pub select : List Text
  pub joins : List Text
  pub validation_err : Option GoError

-- What a repository is made of, and the libraries' functions that it calls: strings.ToUpper,
-- errors.Join, and the schema that gorm parses, with whether its primary field is an ID of ulid.
pub record Repository (W : Type 0) : Type 0 where
  pub to_upper : Text → Text
  pub join_errors : Option GoError → GoError → GoError
  pub info : ModelInfo
  pub schema : Result GoError Schema
  pub primary_is_ulid : Option Bool
  pub parse_id : Text → Result Text Text
  pub strict_updates : Bool

-- The Reason of a ValidationError.
abbrev pub reason_text : SqlReason → Text
reason_text dangerous_keyword = codes "dangerous_keyword"
reason_text invalid_format = codes "invalid_format"
reason_text invalid_column = codes "invalid_column"
reason_text invalid_direction = codes "invalid_direction"
reason_text missing_join_keyword = codes "missing_join_keyword"
reason_text missing_on_clause = codes "missing_on_clause"
reason_text invalid_join_type = codes "invalid_join_type"

abbrev pub no_option : {W : Type 0} → QueryOption W
no_option = record {
  preloads = [];
  scopes = [];
  order_by = [];
  select = [];
  joins = [];
  validation_err = none;
}

module _ {W : Type 0} (r : Repository W) where
  -- addValidationError of an error that is not nil
  abbrev pub add_validation_error : GoError → QueryOption W → QueryOption W
  add_validation_error e o = record o { validation_err = some (r.join_errors o.validation_err e) }

  abbrev pub checked_by :
      Text → Result SqlError (Unit {0}) → QueryOption W → QueryOption W → QueryOption W
  checked_by prefix (ok _) set o = set
  checked_by prefix (err e) set o =
      add_validation_error (wrapped prefix (validation (reason_text e.reason))) o

  -- WithOrderBy
  unfoldable pub with_order_by : Text → QueryOption W → QueryOption W
  unfolding validate_order_by
  with_order_by s o =
      checked_by (codes "order by") (validate_order_by r.to_upper s) (record o { order_by = s }) o

  -- WithSelect
  unfoldable pub with_select : List Text → QueryOption W → QueryOption W
  unfolding validate_select
  with_select s o =
      checked_by (codes "select") (validate_select r.to_upper s) (record o { select = s }) o

  -- WithJoins
  unfoldable pub with_joins : List Text → QueryOption W → QueryOption W
  unfolding validate_joins
  with_joins s o =
      checked_by (codes "joins") (validate_joins r.to_upper s) (record o { joins = s }) o

-- ApplyOptions
unfoldable pub apply_options :
    {W : Type 0} → List (QueryOption W → QueryOption W) → QueryOption W → QueryOption W
apply_options [] o = o
apply_options (opt ∷ opts) o = apply_options opts (opt o)

-- The argument `where any` of the operations: nil, a string, or something else.
pub data Where (W : Type 0) : Type 0 where
  no_where : Where W
  sql_text : Text → Where W
  structure : W → Where W

abbrev pub parsed_id : Result Text Text → Result GoError PrimaryId
parsed_id (ok id) = ok (ulid_id id)
parsed_id (err e) = err (biz_caused code_invalid_argument (codes "invalid record id") (other e))

abbrev pub no_query : {Q : Type 0} → Query Q
no_query = record { conditions = []; failure = none }

module _ {W : Type 0} where
  -- db.AddError and db.Where on all of the query
  abbrev pub fail : GoError → Built W → Built W
  fail e db = record db { core = add_error e db.core }

  abbrev pub where_given : Given W → Built W → Built W
  where_given c db = record db { core = where_also (given c) db.core }

  -- applyQueryOptionValidation
  abbrev pub apply_query_option_validation : Option GoError → Built W → Built W
  apply_query_option_validation none db = db
  apply_query_option_validation (some e) db =
      fail (biz_caused code_invalid_argument (codes "invalid query options") e) db

  -- applyStructuredCondition
  unfoldable pub apply_structured_condition : Built W → Where W → Built W
  unfolding trim_space
  apply_structured_condition db no_where = db
  apply_structured_condition db (sql_text query) =
      if is_empty (trim_space query)
      then db
      else fail
          (biz code_invalid_argument (codes "structured conditions do not accept raw SQL strings"))
          db
  apply_structured_condition db (structure w) = where_given (structured w) db

  -- applyUnsafeWhere
  unfoldable pub apply_unsafe_where : Built W → Text → List W → Built W
  unfolding trim_space
  apply_unsafe_where db query args =
      if is_empty (trim_space query) then db else where_given (raw query args) db

  abbrev pub apply_scopes : List (Built W → Built W) → Built W → Built W
  apply_scopes [] db = db
  apply_scopes (scope ∷ scopes) db = apply_scopes scopes (scope db)

  -- A gorm.DB on which nothing is asked yet.
  abbrev pub fresh : Built W
  fresh = record {
    core = no_query;
    select = [];
    joins = [];
    order_by = [];
    preloads = [];
    unscoped = false;
    offset = none;
    limit = none;
  }

  -- r.applyTenantScope(ctx, r.withContext(ctx))
  abbrev pub scoped : Repository W → Option TenantContext → Built W
  scoped r tenant = record fresh { core = apply_tenant_scope r.info tenant no_query }

  abbrev pub with_options : QueryOption W → Built W → Built W
  with_options o db =
      let checked = apply_query_option_validation o.validation_err db in
      let asked = record checked { select = o.select; joins = o.joins; order_by = o.order_by } in
      let narrowed = apply_scopes o.scopes asked in
      record narrowed { preloads = narrowed.preloads ++ o.preloads }

  -- buildQuery
  unfoldable pub build_query :
      Repository W → Option TenantContext → Option (QueryOption W) → Built W
  unfolding apply_tenant_scope
  build_query r tenant none = scoped r tenant
  build_query r tenant (some o) = with_options o (scoped r tenant)

  abbrev pub id_of_type : Repository W → Option Bool → Text → Result GoError PrimaryId
  id_of_type r none id = ok (text_id id)
  id_of_type r (some false) id = ok (text_id id)
  id_of_type r (some true) id = parsed_id (r.parse_id id)

  -- normalizePrimaryID
  unfoldable pub normalize_primary_id : Repository W → Text → Result GoError PrimaryId
  normalize_primary_id r id = r.schema >>= λ _. id_of_type r r.primary_is_ulid id

  -- normalizePrimaryIDs
  unfoldable pub normalize_primary_ids : Repository W → List Text → Result GoError (List PrimaryId)
  unfolding normalize_primary_id
  normalize_primary_ids r [] = ok []
  normalize_primary_ids r (id ∷ ids) = normalize_primary_id r id >>= λ value.
      normalize_primary_ids r ids >>= λ rest. ok (value ∷ rest)
