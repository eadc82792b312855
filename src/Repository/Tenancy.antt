-- ===== src/Repository/Tenancy.antt =====
-- The queries that the operations of package repository build keep the tenant scope.
use ais_pkg.Prelude.{
  ◌≡◌, Bool, true, false, List, [], ◌∷◌, Option, some, none, inl, inr, is_empty, if◌then◌else◌, All,
}
use ais_pkg.Prelude.Text.{Text, trim_space}
use ais_pkg.Errors.Values.{GoError}
use ais_pkg.Repository.Tenant.{TenantContext, ModelInfo, Condition, given, Query, where_also}
use ais_pkg.Repository.Isolation.{
  Demands, Isolated, Demands-before, joined_error-ne, apply_tenant_scope-Isolated,
}
use ais_pkg.Repository.Queries.{
  Given, Built, QueryOption, Repository, fail, where_given, apply_query_option_validation, Where,
  no_where, sql_text, structure, structured, apply_structured_condition, apply_unsafe_where, raw,
  apply_scopes, scoped, build_query, no_query,
}

-- More conditions keep a query isolated.
Isolated-more :
    {Q : Type 0} (info : ModelInfo) (tenant : Option TenantContext) (a b : Query Q)
    → ((c : Condition Q) → Demands c a.conditions → Demands c b.conditions)
    → Isolated info tenant a
    → Isolated info tenant b
Isolated-more info tenant a b more h = record {
  context = h.context;
  known = h.known;
  has_dept = h.has_dept;
  fields = h.fields;
  tenant_demanded = more _ h.tenant_demanded;
  dept_demanded = elim h.dept_demanded [
    | inl e ↦ inl e
    | inr d ↦ elim d [
      | inl admin ↦ inr (inl admin)
      | inr own ↦ inr (inr (own.0, own.1, more _ own.2))
    ]
  ];
}

module _ {W : Type 0} (r : Repository W) (tenant : Option TenantContext) where
  -- If no error was added, the query is held to the tenant of the context.
  abbrev pub Held : Built W → Type 0
  Held db = db.core.failure ≡ none → Isolated r.info tenant db.core

  -- A scope of the caller does not take the hold away.
  abbrev pub Keeps : (Built W → Built W) → Type 0
  Keeps scope = (db : Built W) → Held db → Held (scope db)

  -- The scopes among the options do so.
  abbrev pub OptionsKeep : Option (QueryOption W) → Type 0
  OptionsKeep none = Unit {0}
  OptionsKeep (some o) = All Keeps o.scopes

  pub scoped-Held : r.info.tenant_ignored ≡ false → Held (scoped r tenant)
  scoped-Held own h = apply_tenant_scope-Isolated r.info tenant (no_query) own h

  pub where_given-Held : (c : Given W) (db : Built W) → Held db → Held (where_given c db)
  where_given-Held c db held h =
      Isolated-more r.info tenant db.core (where_also (given c) db.core)
        (λ d m. Demands-before d (given c) db.core.conditions m) (held h)

  fail-Held : (e : GoError) (db : Built W) → Held (fail e db)
  fail-Held e db h = absurd (joined_error-ne db.core.failure e h)

  validation-Held :
      (e : Option GoError) (db : Built W) → Held db → Held (apply_query_option_validation e db)
  validation-Held none db held = held
  validation-Held (some e) db held = fail-Held _ db

  Held-if : (b : Bool) (x y : Built W) → Held x → Held y → Held (if b then x else y)
  Held-if true x y hx hy = hx
  Held-if false x y hx hy = hy

  pub apply_structured_condition-Held :
      (w : Where W) (db : Built W) → Held db → Held (apply_structured_condition db w)
  unfolding apply_structured_condition
  apply_structured_condition-Held no_where db held = held
  apply_structured_condition-Held (sql_text query) db held =
      Held-if (is_empty (trim_space query)) db _ held (fail-Held _ db)
  apply_structured_condition-Held (structure w) db held = where_given-Held (structured w) db held

  pub apply_unsafe_where-Held :
      (query : Text) (args : List W) (db : Built W)
      → Held db
      → Held (apply_unsafe_where db query args)
  unfolding apply_unsafe_where
  apply_unsafe_where-Held query args db held =
      Held-if (is_empty (trim_space query)) db _ held (where_given-Held (raw query args) db held)

  apply_scopes-Held :
      (scopes : List (Built W → Built W)) (db : Built W)
      → All Keeps scopes
      → Held db
      → Held (apply_scopes scopes db)
  apply_scopes-Held [] db keep held = held
  apply_scopes-Held (scope ∷ scopes) db keep held =
      apply_scopes-Held scopes (scope db) keep.1 (keep.0 db held)

  -- A query that buildQuery builds is held to the tenant, if the caller's scopes do not take that away.
  pub build_query-Held :
      (o : Option (QueryOption W))
      → r.info.tenant_ignored ≡ false
      → OptionsKeep o
      → Held (build_query r tenant o)
  unfolding build_query
  build_query-Held none own keep = scoped-Held own
  build_query-Held (some o) own keep =
      apply_scopes-Held o.scopes _ keep
        (validation-Held o.validation_err (scoped r tenant) (scoped-Held own))
