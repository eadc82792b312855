-- ===== src/Repository/Operations.antt =====
-- repository/query.go, aggregate.go and crud.go: the operations, over a database that is an argument.
use ais_pkg.Prelude.{
  ℕ, Bool, List, [], ◌∷◌, Option, some, none, Result, ok, err, ltb, ◌==◌, if◌then◌else◌,
}
use ais_pkg.Prelude.Text.{Text, codes}
use ais_pkg.Errors.Values.{GoError, biz, record_not_found, code_invalid_argument}
use ais_pkg.Repository.Tenant.{TenantContext, normalize_repository_error}
use ais_pkg.Repository.Queries.{
  id_is, id_in, Built, QueryOption, Repository, where_given, apply_structured_condition,
  apply_unsafe_where, Where, scoped, build_query, normalize_primary_id, normalize_primary_ids,
  apply_options, no_option,
}

-- What becomes of a row that is there already: nothing is said, it stays, or columns are set.
pub data Conflict : Type 0 where
  unsaid do_nothing : Conflict
  do_updates : List Text → Conflict

-- What a statement does, with the rows that the query selects, or to insert rows in batches.
pub data Verb (W : Type 0) : Type 0 where
  first find count delete : Verb W
  insert_rows : List W → Option ℕ → Conflict → Verb W
  update_columns : List (Text × W) → Verb W
  update_model : W → Verb W
  scan : Text → Verb W
  scan_groups : Text → Text → Verb W

-- What gorm gives back: an error, or the rows, the number of rows affected or counted, and values.
pub record Answer (W : Type 0) : Type 0 where
  pub rows : List W
  pub number : ℕ
  pub groups : List (Text × ℕ)

-- A database with state `S`.
abbrev pub Gorm : Type 0 → Type 0 → Type 0
Gorm W S = Verb W → Built W → S → Result GoError (Answer W) × S

module _ {W : Type 0} {S : Type 0} (g : Gorm W S) where
  abbrev pub execute_unless : Option GoError → Verb W → Built W → S → Result GoError (Answer W) × S
  execute_unless (some e) verb db s = (err e, s)
  execute_unless none verb db s = g verb db s

  -- A statement of gorm, which does not run when an error was added to the query.
  abbrev pub execute : Verb W → Built W → S → Result GoError (Answer W) × S
  execute verb db s = execute_unless db.core.failure verb db s

  -- The result of a statement, with its error normalized.
  abbrev pub answered :
      {A : Type 0}
      → Text
      → (Answer W → Result GoError A)
      → Result GoError (Answer W)
      → Result GoError A
  answered message f (err e) = err (normalize_repository_error e message)
  answered message f (ok a) = f a

  abbrev pub run :
      {A : Type 0}
      → Text
      → (Answer W → Result GoError A)
      → Verb W
      → Built W
      → S
      → Result GoError A × S
  run message f verb db s = let (a, t) = execute verb db s in (answered message f a, t)

  abbrev pub all_rows : Answer W → Result GoError (List W)
  all_rows a = ok a.rows

  -- What follows a step that fails before any statement.
  abbrev pub and_then :
      {A B : Type 0} → Result GoError A → (A → S → Result GoError B × S) → S → Result GoError B × S
  and_then (err e) f s = (err e, s)
  and_then (ok a) f s = f a s

  abbrev pub invalid_id : {A : Type 0} → Text → Result GoError A → Result GoError A
  invalid_id message (ok a) = ok a
  invalid_id message (err e) = err (normalize_repository_error e message)

  -- An update or a deletion that touches no row is an error.
  abbrev pub touched : Answer W → Result GoError (Unit {0})
  touched a =
      if a.number == 0
      then err (normalize_repository_error record_not_found (codes "record not found"))
      else ok tt

  abbrev pub invalid_argument : GoError
  invalid_argument = biz code_invalid_argument (codes "invalid argument")

  module _ (r : Repository W) (tenant : Option TenantContext) where
    -- FindByID
    unfoldable pub find_by_id : Text → QueryOption W → S → Result GoError (List W) × S
    unfolding normalize_primary_id build_query normalize_repository_error
    find_by_id id opt s =
        and_then (invalid_id (codes "invalid record id") (normalize_primary_id r id))
          (λ value.
            run (codes "failed to find record") all_rows first
              (where_given (id_is value) (build_query r tenant (some opt))))
          s

    abbrev pub find_ids : List Text → QueryOption W → S → Result GoError (List W) × S
    find_ids ids opt s =
        and_then (invalid_id (codes "invalid record ids") (normalize_primary_ids r ids))
          (λ values.
            run (codes "failed to find records") all_rows find
              (where_given (id_in values) (build_query r tenant (some opt))))
          s

    -- FindByIDs
    unfoldable pub find_by_ids : List Text → QueryOption W → S → Result GoError (List W) × S
    unfolding normalize_primary_ids build_query normalize_repository_error
    find_by_ids [] opt s = (ok [], s)
    find_by_ids (id ∷ ids) opt s = find_ids (id ∷ ids) opt s

    -- FindOneByCondition
    unfoldable pub find_one_by_condition : Where W → QueryOption W → S → Result GoError (List W) × S
    unfolding build_query apply_structured_condition normalize_repository_error
    find_one_by_condition w opt s =
        run (codes "failed to find record") all_rows first
          (apply_structured_condition (build_query r tenant (some opt)) w) s

    -- FindByCondition
    unfoldable pub find_by_condition : Where W → QueryOption W → S → Result GoError (List W) × S
    unfolding build_query apply_structured_condition normalize_repository_error
    find_by_condition w opt s =
        run (codes "failed to find records") all_rows find
          (apply_structured_condition (build_query r tenant (some opt)) w) s

    abbrev pub options_of : List (QueryOption W → QueryOption W) → Option (QueryOption W)
    options_of [] = none
    options_of (opt ∷ opts) = some (apply_options (opt ∷ opts) no_option)

    -- FindOneWithOpts, and FindOne without options
    unfoldable pub find_one_with_opts :
        Text → List (QueryOption W → QueryOption W) → List W → S → Result GoError (List W) × S
    unfolding build_query apply_unsafe_where apply_options normalize_repository_error
    find_one_with_opts query opts args s =
        run (codes "failed to find record") all_rows first
          (apply_unsafe_where (build_query r tenant (options_of opts)) query args) s

    -- FindByQueryWithOpts, and FindByQuery without options
    unfoldable pub find_by_query_with_opts :
        Text → List (QueryOption W → QueryOption W) → List W → S → Result GoError (List W) × S
    unfolding build_query apply_unsafe_where apply_options normalize_repository_error
    find_by_query_with_opts query opts args s =
        run (codes "failed to find records") all_rows find
          (apply_unsafe_where (build_query r tenant (options_of opts)) query args) s

    -- countWithDB
    abbrev pub count_with_db : Built W → S → Result GoError ℕ × S
    count_with_db db s = run (codes "failed to count records") (λ a. ok a.number) count db s

    -- Count
    unfoldable pub count_records : Text → List W → S → Result GoError ℕ × S
    unfolding apply_unsafe_where normalize_repository_error
    count_records query args s = count_with_db (apply_unsafe_where (scoped r tenant) query args) s

    -- CountByCondition
    unfoldable pub count_by_condition : Where W → S → Result GoError ℕ × S
    unfolding apply_structured_condition normalize_repository_error
    count_by_condition w s = count_with_db (apply_structured_condition (scoped r tenant) w) s

    abbrev pub is_positive : Result GoError ℕ × S → Result GoError Bool × S
    is_positive (ok n, s) = (ok (ltb 0 n), s)
    is_positive (err e, s) = (err e, s)

    -- Exists
    unfoldable pub exists_records : Text → List W → S → Result GoError Bool × S
    unfolding count_records
    exists_records query args s = is_positive (count_records query args s)

    -- ExistsByCondition
    unfoldable pub exists_by_condition : Where W → S → Result GoError Bool × S
    unfolding count_by_condition
    exists_by_condition w s = is_positive (count_by_condition w s)
