-- ===== src/Repository/Aggregates.antt =====
-- repository/aggregate.go: the aggregates, with a value for the result that was scanned. Sums and
-- averages without rows are 0 by COALESCE.
use ais_pkg.Prelude.{
  ℕ, Bool, List, [], ◌∷◌, ◌++◌, Option, some, none, Result, ok, err, if◌then◌else◌,
}
use ais_pkg.Prelude.Text.{Text, codes}
use ais_pkg.Prelude.Maps.{insert}
use ais_pkg.Errors.Values.{GoError}
use ais_pkg.Sql.Columns.{validate_column}
use ais_pkg.Repository.Tenant.{TenantContext, normalize_repository_error}
use ais_pkg.Repository.Queries.{
  Built, QueryOption, Repository, apply_structured_condition, apply_unsafe_where, Where, scoped,
  build_query,
}
use ais_pkg.Repository.Operations.{Gorm, scan, scan_groups, Answer, execute, run, and_then}

abbrev pub coalesced : Text → Text → Text
coalesced name column = codes "COALESCE(" ++ name ++ b'(' ∷ column ++ codes "), 0)"

abbrev pub plain_call : Text → Text → Text
plain_call name column = name ++ b'(' ∷ column ++ b')' ∷ []

abbrev pub first_value : {W : Type 0} → List W → Option W
first_value [] = none
first_value (w ∷ ws) = some w

abbrev pub one_value : {W : Type 0} → Answer W → Result GoError (Option W)
one_value a = ok (first_value a.rows)

-- The result of Max and Min: what they return, or a panic of row.Scan.
pub data Scanned (A : Type 0) : Type 0 where
  scanned : Result GoError A → Scanned A
  panicked : Scanned A

-- The loop that fills the map of CountByGroup.
abbrev pub group_map : List (Text × ℕ) → List (Text × ℕ) → List (Text × ℕ)
group_map [] m = m
group_map ((group, count) ∷ groups) m = group_map groups (insert group count m)

module _ {W : Type 0} {S : Type 0} (g : Gorm W S) (r : Repository W)
    (tenant : Option TenantContext) where
  -- A statement on a column that validateColumn accepts.
  abbrev pub on_column : {A : Type 0} → Text → (S → Result GoError A × S) → S → Result GoError A × S
  on_column column f s = and_then g (validate_column r.to_upper column) (λ _. f) s

  -- The query of the aggregates with SQL, and of those with a condition.
  abbrev pub by_sql : Text → List W → Built W
  by_sql query args = apply_unsafe_where (scoped r tenant) query args

  abbrev pub by_condition : Where W → QueryOption W → Built W
  by_condition w opt = apply_structured_condition (build_query r tenant (some opt)) w

  -- Sum
  unfoldable pub sum_of : Text → Text → List W → S → Result GoError (Option W) × S
  unfolding validate_column apply_unsafe_where normalize_repository_error
  sum_of column query args s =
      on_column column
        (run g (codes "failed to sum records") one_value (scan (coalesced (codes "SUM") column))
          (by_sql query args))
        s

  -- Avg
  unfoldable pub avg_of : Text → Text → List W → S → Result GoError (Option W) × S
  unfolding validate_column apply_unsafe_where normalize_repository_error
  avg_of column query args s =
      on_column column
        (run g (codes "failed to average records") one_value (scan (coalesced (codes "AVG") column))
          (by_sql query args))
        s

  -- The end of Max and Min: sql.ErrNoRows, which the test tells, is no error.
  abbrev pub maybe_value :
      (GoError → Bool) → Text → Result GoError (Answer W) → Result GoError (Option W)
  maybe_value no_rows message (ok a) = one_value a
  maybe_value no_rows message (err e) =
      if no_rows e then ok none else err (normalize_repository_error e message)

  -- The Row of a query with an error is nil, and its Scan panics. An error of the database is that of
  -- Scan.
  abbrev pub scan_row :
      Option GoError
      → (GoError → Bool)
      → Text
      → Result GoError (Answer W) × S
      → Scanned (Option W) × S
  scan_row (some e) no_rows message (a, s) = (panicked, s)
  scan_row none no_rows message (a, s) = (scanned (maybe_value no_rows message a), s)

  abbrev pub extreme : (GoError → Bool) → Text → Text → Text → Built W → S → Scanned (Option W) × S
  extreme no_rows message name column db s =
      scan_row db.core.failure no_rows message (execute g (scan (plain_call name column)) db s)

  -- The same on a column that validateColumn accepts.
  abbrev pub extreme_on :
      Result GoError (Unit {0}) → (S → Scanned (Option W) × S) → S → Scanned (Option W) × S
  extreme_on (err e) f s = (scanned (err e), s)
  extreme_on (ok u) f s = f s

  -- Max
  unfoldable pub max_of : (GoError → Bool) → Text → Text → List W → S → Scanned (Option W) × S
  unfolding validate_column apply_unsafe_where normalize_repository_error
  max_of no_rows column query args s =
      extreme_on (validate_column r.to_upper column)
        (extreme no_rows (codes "failed to get max value") (codes "MAX") column (by_sql query args))
        s

  -- Min
  unfoldable pub min_of : (GoError → Bool) → Text → Text → List W → S → Scanned (Option W) × S
  unfolding validate_column apply_unsafe_where normalize_repository_error
  min_of no_rows column query args s =
      extreme_on (validate_column r.to_upper column)
        (extreme no_rows (codes "failed to get min value") (codes "MIN") column (by_sql query args))
        s

  -- CountByGroup
  unfoldable pub count_by_group : Text → Text → List W → S → Result GoError (List (Text × ℕ)) × S
  unfolding validate_column apply_unsafe_where normalize_repository_error insert
  count_by_group column query args s =
      on_column column
        (run g (codes "failed to count by group") (λ a. ok (group_map a.groups []))
          (scan_groups (column ++ codes " as group_column, COUNT(*) as count") column)
          (by_sql query args))
        s

  -- SumWithCondition
  unfoldable pub sum_with_condition :
      Text → Where W → QueryOption W → S → Result GoError (Option W) × S
  unfolding validate_column apply_structured_condition build_query normalize_repository_error
  sum_with_condition column w opt s =
      on_column column
        (run g (codes "failed to sum records") one_value (scan (coalesced (codes "SUM") column))
          (by_condition w opt))
        s

  -- AvgWithCondition
  unfoldable pub avg_with_condition :
      Text → Where W → QueryOption W → S → Result GoError (Option W) × S
  unfolding validate_column apply_structured_condition build_query normalize_repository_error
  avg_with_condition column w opt s =
      on_column column
        (run g (codes "failed to average records") one_value (scan (coalesced (codes "AVG") column))
          (by_condition w opt))
        s

  -- MaxWithCondition
  unfoldable pub max_with_condition :
      Text → Where W → QueryOption W → S → Result GoError (Option W) × S
  unfolding validate_column apply_structured_condition build_query normalize_repository_error
  max_with_condition column w opt s =
      on_column column
        (run g (codes "failed to get max value") one_value (scan (plain_call (codes "MAX") column))
          (by_condition w opt))
        s

  -- MinWithCondition
  unfoldable pub min_with_condition :
      Text → Where W → QueryOption W → S → Result GoError (Option W) × S
  unfolding validate_column apply_structured_condition build_query normalize_repository_error
  min_with_condition column w opt s =
      on_column column
        (run g (codes "failed to get min value") one_value (scan (plain_call (codes "MIN") column))
          (by_condition w opt))
        s
