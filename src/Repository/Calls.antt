-- ===== src/Repository/Calls.antt =====
-- The calls of a client of package repository that stay within the tenant.
use ais_pkg.Prelude.{Bool, List, Option, some}
use ais_pkg.Prelude.Text.{Text}
use ais_pkg.Prelude.Int.{ℤ}
use ais_pkg.Errors.Values.{GoError}
use ais_pkg.Repository.Tenant.{TenantContext}
use ais_pkg.Repository.Queries.{QueryOption, Repository, Where}
use ais_pkg.Repository.Operations.{
  Gorm, options_of, find_by_id, find_by_ids, find_one_by_condition, find_by_condition,
  find_one_with_opts, find_by_query_with_opts, count_records, count_by_condition, exists_records,
  exists_by_condition,
}
use ais_pkg.Repository.Aggregates.{
  sum_of, avg_of, max_of, min_of, count_by_group, sum_with_condition, avg_with_condition,
  max_with_condition, min_with_condition,
}
use ais_pkg.Repository.Writes.{
  ModelFields, create, create_batch, update, update_by_id, delete_record, delete_batch, hard_delete,
}
use ais_pkg.Repository.Pages.{Transactions, find_page_with_opts, find_page_by_model}
use ais_pkg.Repository.Tenancy.{OptionsKeep}

-- The operations of CRUDRepository, QueryRepository, PageRepository and AggregateRepository with their
-- arguments, except for UpsertBatch, whose statement also overwrites rows on a conflict. What
-- TransactionRepository adds, and GetDB, which hands out the database itself, are not among them.
pub data Call (W : Type 0) : Type 0 where
  creates : Option W → Call W
  creates_batch : List (Option W) → ℤ → Call W
  updates : Option W → Call W
  updates_by_id : Text → List (Text × W) → List Text → Call W
  deletes hard_deletes : Text → Call W
  deletes_batch : List Text → Call W
  finds_by_id : Text → QueryOption W → Call W
  finds_by_ids : List Text → QueryOption W → Call W
  finds_one_by_condition finds_by_condition : Where W → QueryOption W → Call W
  finds_one finds_by_query : Text → List (QueryOption W → QueryOption W) → List W → Call W
  counts exists : Text → List W → Call W
  counts_by_condition exists_by : Where W → Call W
  finds_page : ℤ → ℤ → Text → List (QueryOption W → QueryOption W) → List W → Call W
  finds_page_by_model : ℤ → ℤ → Option W → QueryOption W → Call W
  sums averages counts_by_group : Text → Text → List W → Call W
  maximum minimum : (GoError → Bool) → Text → Text → List W → Call W
  sums_with averages_with maximum_with minimum_with : Text → Where W → QueryOption W → Call W

module _ {W : Type 0} {S : Type 0} (g : Gorm W S) (t : Transactions S) (r : Repository W)
    (fields : ModelFields W) (tenant : Option TenantContext) where
  -- The database after a call.
  unfoldable pub perform : Call W → S → S
  unfolding create create_batch update update_by_id delete_record delete_batch hard_delete
      find_by_id find_by_ids find_one_by_condition find_by_condition find_one_with_opts
      find_by_query_with_opts count_records count_by_condition exists_records exists_by_condition
      find_page_with_opts find_page_by_model sum_of avg_of max_of min_of count_by_group
      sum_with_condition avg_with_condition max_with_condition min_with_condition
  perform (creates m) s = (create g r fields tenant m s).1
  perform (creates_batch models size) s = (create_batch g r fields tenant models size s).1
  perform (updates m) s = (update g r fields tenant m s).1
  perform (updates_by_id id us allowed) s = (update_by_id g r fields tenant id us allowed s).1
  perform (deletes id) s = (delete_record g r fields tenant id s).1
  perform (hard_deletes id) s = (hard_delete g r fields tenant id s).1
  perform (deletes_batch ids) s = (delete_batch g r fields tenant ids s).1
  perform (finds_by_id id opt) s = (find_by_id g r tenant id opt s).1
  perform (finds_by_ids ids opt) s = (find_by_ids g r tenant ids opt s).1
  perform (finds_one_by_condition w opt) s = (find_one_by_condition g r tenant w opt s).1
  perform (finds_by_condition w opt) s = (find_by_condition g r tenant w opt s).1
  perform (finds_one query opts args) s = (find_one_with_opts g r tenant query opts args s).1
  perform (finds_by_query query opts args) s =
      (find_by_query_with_opts g r tenant query opts args s).1
  perform (counts query args) s = (count_records g r tenant query args s).1
  perform (exists query args) s = (exists_records g r tenant query args s).1
  perform (counts_by_condition w) s = (count_by_condition g r tenant w s).1
  perform (exists_by w) s = (exists_by_condition g r tenant w s).1
  perform (finds_page page size query opts args) s =
      (find_page_with_opts g t r tenant page size query opts args s).1
  perform (finds_page_by_model page size m opt) s =
      (find_page_by_model g t r tenant page size m opt s).1
  perform (sums column query args) s = (sum_of g r tenant column query args s).1
  perform (averages column query args) s = (avg_of g r tenant column query args s).1
  perform (counts_by_group column query args) s = (count_by_group g r tenant column query args s).1
  perform (maximum no_rows column query args) s = (max_of g r tenant no_rows column query args s).1
  perform (minimum no_rows column query args) s = (min_of g r tenant no_rows column query args s).1
  perform (sums_with column w opt) s = (sum_with_condition g r tenant column w opt s).1
  perform (averages_with column w opt) s = (avg_with_condition g r tenant column w opt s).1
  perform (maximum_with column w opt) s = (max_with_condition g r tenant column w opt s).1
  perform (minimum_with column w opt) s = (min_with_condition g r tenant column w opt s).1

  -- The scopes that a call brings along do not take the hold of the tenant away.
  abbrev pub CallKeeps : Call W → Type 0
  CallKeeps (finds_by_id id opt) = OptionsKeep r tenant (some opt)
  CallKeeps (finds_by_ids ids opt) = OptionsKeep r tenant (some opt)
  CallKeeps (finds_one_by_condition w opt) = OptionsKeep r tenant (some opt)
  CallKeeps (finds_by_condition w opt) = OptionsKeep r tenant (some opt)
  CallKeeps (finds_one query opts args) = OptionsKeep r tenant (options_of g r tenant opts)
  CallKeeps (finds_by_query query opts args) = OptionsKeep r tenant (options_of g r tenant opts)
  CallKeeps (finds_page page size query opts args) =
      OptionsKeep r tenant (options_of g r tenant opts)
  CallKeeps (finds_page_by_model page size m opt) = OptionsKeep r tenant (some opt)
  CallKeeps (sums_with column w opt) = OptionsKeep r tenant (some opt)
  CallKeeps (averages_with column w opt) = OptionsKeep r tenant (some opt)
  CallKeeps (maximum_with column w opt) = OptionsKeep r tenant (some opt)
  CallKeeps (minimum_with column w opt) = OptionsKeep r tenant (some opt)
  CallKeeps _ = Unit {0}
