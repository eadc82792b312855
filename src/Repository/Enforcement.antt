-- ===== src/Repository/Enforcement.antt =====
-- The statements that reading operations of package repository send to the database are held to the
-- tenant.
use ais_pkg.Prelude.{ℕ, ◌≡◌, refl, false, List, [], ◌∷◌, Option, some, none, Result, ok, err, All}
use ais_pkg.Prelude.Text.{Text}
use ais_pkg.Errors.Values.{GoError}
use ais_pkg.Repository.Tenant.{TenantContext, Scoped, apply_tenant_scope}
use ais_pkg.Repository.Isolation.{Isolated}
use ais_pkg.Repository.Creation.{InScope}
use ais_pkg.Repository.Queries.{
  Given, id_is, id_in, Built, QueryOption, Repository, Where, scoped, build_query, no_query,
}
use ais_pkg.Repository.Operations.{
  Gorm, Verb, first, find, count, delete, unsaid, insert_rows, update_columns, update_model, scan,
  scan_groups, execute_unless, execute, and_then, options_of, is_positive, find_by_id, find_by_ids,
  find_one_by_condition, find_by_condition, find_one_with_opts, find_by_query_with_opts,
  count_records, count_by_condition, exists_records, exists_by_condition,
}
use ais_pkg.Repository.Tenancy.{
  Held, OptionsKeep, scoped-Held, where_given-Held, apply_structured_condition-Held,
  apply_unsafe_where-Held, build_query-Held,
}

-- A result that is a success has the property.
abbrev pub OfOk : {A : Type 0} → (A → Type 0) → Result GoError A → Type 0
OfOk P (ok a) = P a
OfOk P (err e) = Unit {0}

module _ {W : Type 0} {S : Type 0} (g : Gorm W S) (r : Repository W) (scope_of : W → Scoped)
    (tenant : Option TenantContext) (own : r.info.tenant_ignored ≡ false) where
  -- What a statement must be: an insertion is a plain one, which says nothing of conflicts, of rows
  -- inside the tenant's scope, and any other statement is held to the tenant.
  abbrev pub Allowed : Verb W → Built W → Type 0
  Allowed (insert_rows models size conflict) db =
      (conflict ≡ unsaid)
      × All (λ m. InScope {Q = Given W} (scope_of m) (apply_tenant_scope r.info tenant no_query))
          models
  Allowed first db = Isolated r.info tenant db.core
  Allowed find db = Isolated r.info tenant db.core
  Allowed count db = Isolated r.info tenant db.core
  Allowed delete db = Isolated r.info tenant db.core
  Allowed (update_columns updates) db = Isolated r.info tenant db.core
  Allowed (update_model m) db = Isolated r.info tenant db.core
  Allowed (scan sql) db = Isolated r.info tenant db.core
  Allowed (scan_groups sql group) db = Isolated r.info tenant db.core

  module _ (I : S → Type 0)
      (kept : (verb : Verb W) (db : Built W) (s : S)
        → Allowed verb db
        → I s
        → I (g verb db s).1) where
    -- An operation leads from states of the property to such states.
    abbrev pub Safe : {A : Type 0} → (S → Result GoError A × S) → Type 0
    Safe f = (s : S) → I s → I (f s).1

    execute_unless-Safe :
        (e : Option GoError) (verb : Verb W) (db : Built W)
        → (e ≡ none → Allowed verb db)
        → Safe (execute_unless g e verb db)
    execute_unless-Safe none verb db allowed s i = kept verb db s (allowed refl) i
    execute_unless-Safe (some e) verb db allowed s i = i

    pub execute-Safe :
        (verb : Verb W) (db : Built W)
        → (db.core.failure ≡ none → Allowed verb db)
        → Safe (execute g verb db)
    execute-Safe verb db allowed = execute_unless-Safe db.core.failure verb db allowed

    pub and_then-Safe :
        {A B : Type 0} (P : A → Type 0) (x : Result GoError A) (f : A → S → Result GoError B × S)
        → OfOk P x
        → ((a : A) → P a → Safe (f a))
        → Safe (and_then g x f)
    and_then-Safe P (err e) f p safe s i = i
    and_then-Safe P (ok a) f p safe s i = safe a p s i

    anything : {A : Type 0} (x : Result GoError A) → OfOk (λ a. Unit {0}) x
    anything (ok a) = tt
    anything (err e) = tt

    -- After a step that needs no database.
    pub checked-Safe :
        {A B : Type 0} (x : Result GoError A) (f : A → S → Result GoError B × S)
        → ((a : A) → Safe (f a))
        → Safe (and_then g x f)
    checked-Safe x f safe = and_then-Safe (λ a. Unit {0}) x f (anything x) (λ a _. safe a)

    -- The queries of buildQuery for options, and of the scope alone.
    pub by_options :
        (opt : QueryOption W)
        → OptionsKeep r tenant (some opt)
        → Held r tenant (build_query r tenant (some opt))
    by_options opt keep = build_query-Held r tenant (some opt) own keep

    pub by_scope : Held r tenant (scoped r tenant)
    by_scope = scoped-Held r tenant own

    pub find_by_id-Safe :
        (id : Text) (opt : QueryOption W)
        → OptionsKeep r tenant (some opt)
        → Safe (find_by_id g r tenant id opt)
    unfolding find_by_id
    find_by_id-Safe id opt keep = checked-Safe _ _ (λ value. execute-Safe first _ (
        where_given-Held r tenant (id_is value) (build_query r tenant (some opt))
          (by_options opt keep)))

    pub find_by_ids-Safe :
        (ids : List Text) (opt : QueryOption W)
        → OptionsKeep r tenant (some opt)
        → Safe (find_by_ids g r tenant ids opt)
    unfolding find_by_ids
    find_by_ids-Safe [] opt keep s i = i
    find_by_ids-Safe (id ∷ ids) opt keep s i =
        checked-Safe _ _
          (λ values. execute-Safe find _ (
            where_given-Held r tenant (id_in values) (build_query r tenant (some opt))
              (by_options opt keep)))
          s i

    pub find_one_by_condition-Safe :
        (w : Where W) (opt : QueryOption W)
        → OptionsKeep r tenant (some opt)
        → Safe (find_one_by_condition g r tenant w opt)
    unfolding find_one_by_condition
    find_one_by_condition-Safe w opt keep =
        execute-Safe first _ (apply_structured_condition-Held r tenant w _ (by_options opt keep))

    pub find_by_condition-Safe :
        (w : Where W) (opt : QueryOption W)
        → OptionsKeep r tenant (some opt)
        → Safe (find_by_condition g r tenant w opt)
    unfolding find_by_condition
    find_by_condition-Safe w opt keep =
        execute-Safe find _ (apply_structured_condition-Held r tenant w _ (by_options opt keep))

    pub find_one_with_opts-Safe :
        (query : Text) (opts : List (QueryOption W → QueryOption W)) (args : List W)
        → OptionsKeep r tenant (options_of g r tenant opts)
        → Safe (find_one_with_opts g r tenant query opts args)
    unfolding find_one_with_opts
    find_one_with_opts-Safe query opts args keep = execute-Safe first _ (
        apply_unsafe_where-Held r tenant query args _
          (build_query-Held r tenant (options_of g r tenant opts) own keep))

    pub find_by_query_with_opts-Safe :
        (query : Text) (opts : List (QueryOption W → QueryOption W)) (args : List W)
        → OptionsKeep r tenant (options_of g r tenant opts)
        → Safe (find_by_query_with_opts g r tenant query opts args)
    unfolding find_by_query_with_opts
    find_by_query_with_opts-Safe query opts args keep = execute-Safe find _ (
        apply_unsafe_where-Held r tenant query args _
          (build_query-Held r tenant (options_of g r tenant opts) own keep))

    pub count_records-Safe :
        (query : Text) (args : List W) → Safe (count_records g r tenant query args)
    unfolding count_records
    count_records-Safe query args =
        execute-Safe count _ (apply_unsafe_where-Held r tenant query args _ by_scope)

    pub count_by_condition-Safe : (w : Where W) → Safe (count_by_condition g r tenant w)
    unfolding count_by_condition
    count_by_condition-Safe w =
        execute-Safe count _ (apply_structured_condition-Held r tenant w _ by_scope)

    is_positive-Safe : (x : Result GoError ℕ × S) → I x.1 → I (is_positive g r tenant x).1
    is_positive-Safe (ok n, s) i = i
    is_positive-Safe (err e, s) i = i

    pub exists_records-Safe :
        (query : Text) (args : List W) → Safe (exists_records g r tenant query args)
    unfolding exists_records
    exists_records-Safe query args s i = is_positive-Safe _ (count_records-Safe query args s i)

    pub exists_by_condition-Safe : (w : Where W) → Safe (exists_by_condition g r tenant w)
    unfolding exists_by_condition
    exists_by_condition-Safe w s i = is_positive-Safe _ (count_by_condition-Safe w s i)
