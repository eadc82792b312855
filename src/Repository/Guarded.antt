-- ===== src/Repository/Guarded.antt =====
-- The same for aggregates, updates and deletions.
use ais_pkg.Prelude.{◌≡◌, Bool, true, false, List, [], ◌∷◌, Option, some, none, Result, ok, err}
use ais_pkg.Prelude.Text.{Text}
use ais_pkg.Errors.Values.{GoError}
use ais_pkg.Repository.Tenant.{TenantContext, Scoped}
use ais_pkg.Repository.Queries.{
  Given, id_is, id_in, Built, QueryOption, Repository, Where, where_given, scoped, build_query,
}
use ais_pkg.Repository.Operations.{
  Gorm, Verb, delete, update_columns, update_model, scan, scan_groups, execute, and_then, Answer,
}
use ais_pkg.Repository.Aggregates.{
  by_sql, by_condition, Scanned, plain_call, scan_row, extreme, extreme_on, sum_of, avg_of, max_of,
  min_of, count_by_group, sum_with_condition, avg_with_condition, max_with_condition,
  min_with_condition,
}
use ais_pkg.Repository.Writes.{
  ModelFields, update, update_by_id, delete_record, delete_batch, hard_delete,
}
use ais_pkg.Repository.Tenancy.{
  Held, OptionsKeep, where_given-Held, apply_structured_condition-Held, apply_unsafe_where-Held,
}
use ais_pkg.Repository.Enforcement.{Allowed, execute-Safe, checked-Safe, by_options, by_scope}

module _ {W : Type 0} {S : Type 0} (g : Gorm W S) (r : Repository W) (fields : ModelFields W)
    (tenant : Option TenantContext) (own : r.info.tenant_ignored ≡ false)
    (lens : (own : Scoped) (m : W) → fields.scope_of (fields.with_scope own m) ≡ own) where
  module _ (I : S → Type 0)
      (kept : (verb : Verb W) (db : Built W) (s : S)
        → Allowed g r (fields.scope_of) tenant own verb db
        → I s
        → I (g verb db s).1) where
    abbrev pub Kept : {A : Type 0} → (S → Result GoError A × S) → Type 0
    Kept f = (s : S) → I s → I (f s).1

    pub exec :
        (verb : Verb W) (db : Built W)
        → (db.core.failure ≡ none → Allowed g r (fields.scope_of) tenant own verb db)
        → Kept (execute g verb db)
    exec = execute-Safe g r (fields.scope_of) tenant own I kept

    pub checked :
        {A B : Type 0} (x : Result GoError A) (f : A → S → Result GoError B × S)
        → ((a : A) → Kept (f a))
        → Kept (and_then g x f)
    checked = checked-Safe g r (fields.scope_of) tenant own I kept

    pub sql-Held : (query : Text) (args : List W) → Held r tenant (by_sql g r tenant query args)
    sql-Held query args =
        apply_unsafe_where-Held r tenant query args (scoped r tenant)
          (by_scope g r (fields.scope_of) tenant own I kept)

    condition-Held :
        (w : Where W) (opt : QueryOption W)
        → OptionsKeep r tenant (some opt)
        → Held r tenant (by_condition g r tenant w opt)
    condition-Held w opt keep =
        apply_structured_condition-Held r tenant w (build_query r tenant (some opt))
          (by_options g r (fields.scope_of) tenant own I kept opt keep)

    -- An aggregate with SQL, or with a condition.
    scan_sql :
        (sql query : Text) (args : List W)
        → Kept (execute g (scan sql) (by_sql g r tenant query args))
    scan_sql sql query args = exec (scan sql) (by_sql g r tenant query args) (sql-Held query args)

    scan_condition :
        (sql : Text) (w : Where W) (opt : QueryOption W)
        → OptionsKeep r tenant (some opt)
        → Kept (execute g (scan sql) (by_condition g r tenant w opt))
    scan_condition sql w opt keep =
        exec (scan sql) (by_condition g r tenant w opt) (condition-Held w opt keep)

    pub sum_of-Kept :
        (column query : Text) (args : List W) → Kept (sum_of g r tenant column query args)
    unfolding sum_of
    sum_of-Kept column query args = checked _ _ (λ _. scan_sql _ query args)

    pub avg_of-Kept :
        (column query : Text) (args : List W) → Kept (avg_of g r tenant column query args)
    unfolding avg_of
    avg_of-Kept column query args = checked _ _ (λ _. scan_sql _ query args)

    scan_row-keeps :
        (failure : Option GoError) (no_rows : GoError → Bool) (message : Text)
        (x : Result GoError (Answer W) × S)
        → I x.1
        → I (scan_row g r tenant failure no_rows message x).1
    scan_row-keeps (some e) no_rows message (a, s) i = i
    scan_row-keeps none no_rows message (a, s) i = i

    extreme-keeps :
        (no_rows : GoError → Bool) (message name column query : Text) (args : List W) (s : S)
        → I s
        → I (extreme g r tenant no_rows message name column (by_sql g r tenant query args) s).1
    extreme-keeps no_rows message name column query args s i =
        scan_row-keeps _ no_rows message
          (execute g (scan (plain_call name column)) (by_sql g r tenant query args) s)
          (scan_sql (plain_call name column) query args s i)

    extreme_on-keeps :
        (x : Result GoError (Unit {0})) (f : S → Scanned (Option W) × S)
        → ((s : S) → I s → I (f s).1)
        → (s : S) → I s
        → I (extreme_on g r tenant x f s).1
    extreme_on-keeps (err e) f safe s i = i
    extreme_on-keeps (ok u) f safe s i = safe s i

    pub max_of-Kept :
        (no_rows : GoError → Bool) (column query : Text) (args : List W)
        → (s : S) → I s
        → I (max_of g r tenant no_rows column query args s).1
    unfolding max_of
    max_of-Kept no_rows column query args =
        extreme_on-keeps _ _ (extreme-keeps no_rows _ _ column query args)

    pub min_of-Kept :
        (no_rows : GoError → Bool) (column query : Text) (args : List W)
        → (s : S) → I s
        → I (min_of g r tenant no_rows column query args s).1
    unfolding min_of
    min_of-Kept no_rows column query args =
        extreme_on-keeps _ _ (extreme-keeps no_rows _ _ column query args)

    pub count_by_group-Kept :
        (column query : Text) (args : List W) → Kept (count_by_group g r tenant column query args)
    unfolding count_by_group
    count_by_group-Kept column query args =
        checked _ _
          (λ _. exec (scan_groups _ column) (by_sql g r tenant query args) (sql-Held query args))

    pub sum_with_condition-Kept :
        (column : Text) (w : Where W) (opt : QueryOption W)
        → OptionsKeep r tenant (some opt)
        → Kept (sum_with_condition g r tenant column w opt)
    unfolding sum_with_condition
    sum_with_condition-Kept column w opt keep = checked _ _ (λ _. scan_condition _ w opt keep)

    pub avg_with_condition-Kept :
        (column : Text) (w : Where W) (opt : QueryOption W)
        → OptionsKeep r tenant (some opt)
        → Kept (avg_with_condition g r tenant column w opt)
    unfolding avg_with_condition
    avg_with_condition-Kept column w opt keep = checked _ _ (λ _. scan_condition _ w opt keep)

    pub max_with_condition-Kept :
        (column : Text) (w : Where W) (opt : QueryOption W)
        → OptionsKeep r tenant (some opt)
        → Kept (max_with_condition g r tenant column w opt)
    unfolding max_with_condition
    max_with_condition-Kept column w opt keep = checked _ _ (λ _. scan_condition _ w opt keep)

    pub min_with_condition-Kept :
        (column : Text) (w : Where W) (opt : QueryOption W)
        → OptionsKeep r tenant (some opt)
        → Kept (min_with_condition g r tenant column w opt)
    unfolding min_with_condition
    min_with_condition-Kept column w opt keep = checked _ _ (λ _. scan_condition _ w opt keep)

    pub update-Kept : (m : Option W) → Kept (update g r fields tenant m)
    unfolding update
    update-Kept none s i = i
    update-Kept (some m) s i =
        checked _ _
          (λ _.
            exec (update_model m) (scoped r tenant)
              (by_scope g r (fields.scope_of) tenant own I kept))
          s i

    pub id-Held : (c : Given W) (db : Built W) → Held r tenant db → Held r tenant (where_given c db)
    id-Held = where_given-Held r tenant

    pub scope-Held : Held r tenant (scoped r tenant)
    scope-Held = by_scope g r (fields.scope_of) tenant own I kept

    pub update_by_id-Kept :
        (id : Text) (updates : List (Text × W)) (allowed : List Text)
        → Kept (update_by_id g r fields tenant id updates allowed)
    unfolding update_by_id
    update_by_id-Kept id [] allowed s i = i
    update_by_id-Kept id (u ∷ updates) allowed s i =
        checked _ _
          (λ ready.
            exec (update_columns (ready.0)) _
              (id-Held (id_is (ready.1)) (scoped r tenant) scope-Held))
          s i

    pub delete_record-Kept : (id : Text) → Kept (delete_record g r fields tenant id)
    unfolding delete_record
    delete_record-Kept id =
        checked _ _ (λ value. exec delete _ (id-Held (id_is value) (scoped r tenant) scope-Held))

    pub delete_batch-Kept : (ids : List Text) → Kept (delete_batch g r fields tenant ids)
    unfolding delete_batch
    delete_batch-Kept [] s i = i
    delete_batch-Kept (id ∷ ids) s i =
        checked _ _ (λ values. exec delete _ (id-Held (id_in values) (scoped r tenant) scope-Held))
          s i

    pub hard_delete-Kept : (id : Text) → Kept (hard_delete g r fields tenant id)
    unfolding hard_delete
    hard_delete-Kept id = checked _ _ (λ value.
        exec delete _
          (id-Held (id_is value) (record (scoped r tenant) { unscoped = true }) scope-Held))
