-- ===== src/Repository/Guardian.antt =====
-- What the operations of package repository keep.
use ais_pkg.Prelude.{ℕ, ◌≡◌, refl, false, List, Option, some, none, Result, ok, err}
use ais_pkg.Prelude.Text.{Text}
use ais_pkg.Prelude.Int.{ℤ}
use ais_pkg.Errors.Values.{GoError}
use ais_pkg.Repository.Tenant.{TenantContext, Scoped}
use ais_pkg.Repository.Queries.{Built, QueryOption, Repository, structured}
use ais_pkg.Repository.Operations.{Gorm, Verb, count, find, run, options_of}
use ais_pkg.Repository.Writes.{ModelFields}
use ais_pkg.Repository.Pages.{
  Transactions, committed, end_transaction, begun, transaction, list_page, find_page_with_db,
  find_page_with_opts, where_model, find_page_by_model, page_of, page_size_of, offset_of,
}
use ais_pkg.Repository.Tenancy.{
  Held, OptionsKeep, where_given-Held, apply_unsafe_where-Held, build_query-Held,
}
use ais_pkg.Repository.Enforcement.{
  Allowed, find_by_id-Safe, find_by_ids-Safe, find_one_by_condition-Safe, find_by_condition-Safe,
  find_one_with_opts-Safe, find_by_query_with_opts-Safe, count_records-Safe,
  count_by_condition-Safe, exists_records-Safe, exists_by_condition-Safe,
}
use ais_pkg.Repository.Guarded.{
  exec, sum_of-Kept, avg_of-Kept, max_of-Kept, min_of-Kept, count_by_group-Kept,
  sum_with_condition-Kept, avg_with_condition-Kept, max_with_condition-Kept,
  min_with_condition-Kept, update-Kept, update_by_id-Kept, delete_record-Kept, delete_batch-Kept,
  hard_delete-Kept,
}
use ais_pkg.Repository.Enforced.{create-Stays, create_batch-Stays}
use ais_pkg.Repository.Calls.{
  Call, creates, creates_batch, updates, updates_by_id, deletes, hard_deletes, deletes_batch,
  finds_by_id, finds_by_ids, finds_one_by_condition, finds_by_condition, finds_one, finds_by_query,
  counts, exists, counts_by_condition, exists_by, finds_page, finds_page_by_model, sums, averages,
  counts_by_group, maximum, minimum, sums_with, averages_with, maximum_with, minimum_with, perform,
  CallKeeps,
}

-- Transactions keep the property, however they begin and end.
pub record TransactionsKeep {S : Type 0} (t : Transactions S) (I : S → Type 0) : Type 0 where
  pub begins : (s s' : S) → t.begin s ≡ ok s' → I s → I s'
  pub commits : (s : S) → I s → I (t.commit s).1
  pub rolls_back : (s : S) → I s → I (t.rollback s)

module _ {S : Type 0} (t : Transactions S) (I : S → Type 0) (tx : TransactionsKeep t I) where
  committed-keeps : {A : Type 0} (a : A) (x : Option GoError × S) → I x.1 → I (committed a x).1
  committed-keeps a (none, s) i = i
  committed-keeps a (some e, s) i = i

  end_transaction-keeps :
      {A : Type 0} (x : Result GoError A × S) → I x.1 → I (end_transaction t x).1
  end_transaction-keeps (err e, s) i = tx.rolls_back s i
  end_transaction-keeps (ok a, s) i = committed-keeps a (t.commit s) (tx.commits s i)

  transaction-keeps :
      {A : Type 0} (f : S → Result GoError A × S) (s : S)
      → ((s : S) → I s → I (f s).1)
      → I s
      → I (transaction t f s).1
  transaction-keeps f s safe i = after (t.begin s) (tx.begins s)
    where
      after : (b : Result GoError S) → ((s' : S) → b ≡ ok s' → I s → I s') → I (begun t f s b).1
      after (err e) starts = i
      after (ok inside) starts =
          end_transaction-keeps (f inside) (safe inside (starts inside refl i))

module _ {W : Type 0} {S : Type 0} (g : Gorm W S) (t : Transactions S) (r : Repository W)
    (fields : ModelFields W) (tenant : Option TenantContext) (own : r.info.tenant_ignored ≡ false)
    (lens : (own : Scoped) (m : W) → fields.scope_of (fields.with_scope own m) ≡ own)
    (I : S → Type 0)
    (kept : (verb : Verb W) (db : Built W) (s : S)
      → Allowed g r (fields.scope_of) tenant own verb db
      → I s
      → I (g verb db s).1)
    (tx : TransactionsKeep t I) where
  list_page-keeps :
      (db : Built W) (page size : ℕ) (x : Result GoError ℕ × S)
      → Held r tenant db
      → I x.1
      → I (list_page g t r tenant db page size x).1
  list_page-keeps db page size (err e, s) held i = i
  list_page-keeps db page size (ok total, s) held i =
      exec g r fields tenant own lens I kept find
        (record db { offset = some (offset_of page size); limit = some size }) held s i

  find_page_with_db-keeps :
      (db : Built W) (page size : ℕ)
      → Held r tenant db
      → (s : S) → I s
      → I (find_page_with_db g t r tenant db page size s).1
  unfolding find_page_with_db
  find_page_with_db-keeps db page size held s i =
      list_page-keeps db page size (run g _ (λ a. ok a.number) count db s) held
        (exec g r fields tenant own lens I kept count db held s i)

  where_model-Held :
      (m : Option W) (db : Built W)
      → Held r tenant db
      → Held r tenant (where_model g t r tenant m db)
  where_model-Held none db held = held
  where_model-Held (some m) db held = where_given-Held r tenant (structured m) db held

  find_page_with_opts-keeps :
      (page size : ℤ) (query : Text) (opts : List (QueryOption W → QueryOption W)) (args : List W)
      → OptionsKeep r tenant (options_of g r tenant opts)
      → (s : S) → I s
      → I (find_page_with_opts g t r tenant page size query opts args s).1
  unfolding find_page_with_opts
  find_page_with_opts-keeps page size query opts args keep s i =
      transaction-keeps t I tx _ s
        (find_page_with_db-keeps _ (page_of page) (page_size_of size) (
          apply_unsafe_where-Held r tenant query args _
            (build_query-Held r tenant (options_of g r tenant opts) own keep)))
        i

  find_page_by_model-keeps :
      (page size : ℤ) (m : Option W) (opt : QueryOption W)
      → OptionsKeep r tenant (some opt)
      → (s : S) → I s
      → I (find_page_by_model g t r tenant page size m opt s).1
  unfolding find_page_by_model
  find_page_by_model-keeps page size m opt keep s i =
      transaction-keeps t I tx _ s
        (find_page_with_db-keeps _ (page_of page) (page_size_of size)
          (where_model-Held m _ (build_query-Held r tenant (some opt) own keep)))
        i

  -- The property holds after each operation, in the section's notation.
  perform_keeps :
      (c : Call W)
      → CallKeeps g t r fields tenant c
      → (s : S) → I s
      → I (perform g t r fields tenant c s)
  unfolding perform
  perform_keeps (creates m) keep s i = create-Stays g r fields tenant own lens I kept m s i
  perform_keeps (creates_batch models size) keep s i =
      create_batch-Stays g r fields tenant own lens I kept models size s i
  perform_keeps (updates m) keep s i = update-Kept g r fields tenant own lens I kept m s i
  perform_keeps (updates_by_id id us allowed) keep s i =
      update_by_id-Kept g r fields tenant own lens I kept id us allowed s i
  perform_keeps (deletes id) keep s i = delete_record-Kept g r fields tenant own lens I kept id s i
  perform_keeps (hard_deletes id) keep s i =
      hard_delete-Kept g r fields tenant own lens I kept id s i
  perform_keeps (deletes_batch ids) keep s i =
      delete_batch-Kept g r fields tenant own lens I kept ids s i
  perform_keeps (finds_by_id id opt) keep s i =
      find_by_id-Safe g r (fields.scope_of) tenant own I kept id opt keep s i
  perform_keeps (finds_by_ids ids opt) keep s i =
      find_by_ids-Safe g r (fields.scope_of) tenant own I kept ids opt keep s i
  perform_keeps (finds_one_by_condition w opt) keep s i =
      find_one_by_condition-Safe g r (fields.scope_of) tenant own I kept w opt keep s i
  perform_keeps (finds_by_condition w opt) keep s i =
      find_by_condition-Safe g r (fields.scope_of) tenant own I kept w opt keep s i
  perform_keeps (finds_one query opts args) keep s i =
      find_one_with_opts-Safe g r (fields.scope_of) tenant own I kept query opts args keep s i
  perform_keeps (finds_by_query query opts args) keep s i =
      find_by_query_with_opts-Safe g r (fields.scope_of) tenant own I kept query opts args keep s i
  perform_keeps (counts query args) keep s i =
      count_records-Safe g r (fields.scope_of) tenant own I kept query args s i
  perform_keeps (exists query args) keep s i =
      exists_records-Safe g r (fields.scope_of) tenant own I kept query args s i
  perform_keeps (counts_by_condition w) keep s i =
      count_by_condition-Safe g r (fields.scope_of) tenant own I kept w s i
  perform_keeps (exists_by w) keep s i =
      exists_by_condition-Safe g r (fields.scope_of) tenant own I kept w s i
  perform_keeps (finds_page page size query opts args) keep s i =
      find_page_with_opts-keeps page size query opts args keep s i
  perform_keeps (finds_page_by_model page size m opt) keep s i =
      find_page_by_model-keeps page size m opt keep s i
  perform_keeps (sums column query args) keep s i =
      sum_of-Kept g r fields tenant own lens I kept column query args s i
  perform_keeps (averages column query args) keep s i =
      avg_of-Kept g r fields tenant own lens I kept column query args s i
  perform_keeps (counts_by_group column query args) keep s i =
      count_by_group-Kept g r fields tenant own lens I kept column query args s i
  perform_keeps (maximum no_rows column query args) keep s i =
      max_of-Kept g r fields tenant own lens I kept no_rows column query args s i
  perform_keeps (minimum no_rows column query args) keep s i =
      min_of-Kept g r fields tenant own lens I kept no_rows column query args s i
  perform_keeps (sums_with column w opt) keep s i =
      sum_with_condition-Kept g r fields tenant own lens I kept column w opt keep s i
  perform_keeps (averages_with column w opt) keep s i =
      avg_with_condition-Kept g r fields tenant own lens I kept column w opt keep s i
  perform_keeps (maximum_with column w opt) keep s i =
      max_with_condition-Kept g r fields tenant own lens I kept column w opt keep s i
  perform_keeps (minimum_with column w opt) keep s i =
      min_with_condition-Kept g r fields tenant own lens I kept column w opt keep s i

-- Whatever the database is, a property of it that allowed statements keep, and the ends of
-- transactions, is kept by the operations of CRUDRepository, QueryRepository, PageRepository and
-- AggregateRepository, UpsertBatch excepted, of a repository whose model does not ignore tenants.
-- Allowed are insertions without a clause on conflicts, of rows with the tenant and the department of
-- the context, and other statements without an error that demand them. The scopes that callers pass
-- must not take the demand away, and a record has the tenant and department that were set in it.
pub perform-Kept :
    {W S : Type 0} (g : Gorm W S) (t : Transactions S) (r : Repository W) (fields : ModelFields W)
    (tenant : Option TenantContext) (I : S → Type 0) (own : r.info.tenant_ignored ≡ false)
    → ((mine : Scoped) (m : W) → fields.scope_of (fields.with_scope mine m) ≡ mine)
    → ((verb : Verb W) (db : Built W) (s : S)
        → Allowed g r (fields.scope_of) tenant own verb db
        → I s
        → I (g verb db s).1)
    → TransactionsKeep t I
    → (c : Call W) (s : S) → CallKeeps g t r fields tenant c
    → I s
    → I (perform g t r fields tenant c s)
perform-Kept g t r fields tenant I own lens kept tx c s keep i =
    perform_keeps g t r fields tenant own lens I kept tx c keep s i
