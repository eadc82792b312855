-- ===== src/Repository/Pages.antt =====
-- repository/page.go: pages inside a transaction.
use ais_pkg.Prelude.{
  ℕ, ◌-◌, ◌*◌, ◌%◌, ◌^◌, List, Option, some, none, Result, ok, err, ltb, if◌then◌else◌,
}
use ais_pkg.Prelude.Text.{Text, codes}
use ais_pkg.Prelude.Int.{ℤ, pos, negsuc, neg}
use ais_pkg.Errors.Values.{GoError}
use ais_pkg.Repository.Tenant.{TenantContext, normalize_repository_error}
use ais_pkg.Repository.Queries.{
  Built, QueryOption, Repository, where_given, structured, apply_unsafe_where, build_query,
}
use ais_pkg.Repository.Floats.{float64, ceil_quotient}
use ais_pkg.Repository.Operations.{Gorm, find, count, run, options_of}

-- MaxPageSize
abbrev pub max_page_size : ℕ
max_page_size = 100

-- The page, at least 1.
abbrev pub page_of : ℤ → ℕ
page_of (negsuc n) = 1
page_of (pos n) = if ltb n 1 then 1 else n

abbrev pub limit_size : ℕ → ℕ
limit_size n = if ltb max_page_size n then max_page_size else n

-- The size of a page, 10 if it is not positive, and at most MaxPageSize.
abbrev pub page_size_of : ℤ → ℕ
page_size_of (negsuc n) = 10
page_size_of (pos n) = limit_size (if ltb n 1 then 10 else n)

-- An int of 64 bits with the value of `n`, which wraps around.
abbrev pub int64 : ℕ → ℤ
int64 n = let m = n % 2 ^ 64 in if ltb m (2 ^ 63) then pos m else neg (2 ^ 64 - m)

-- (page - 1) * pageSize
abbrev pub offset_of : ℕ → ℕ → ℤ
offset_of page size = int64 ((page - 1) * size)

-- int64(math.Ceil(float64(total) / float64(pageSize))); a page size is at most MaxPageSize, so that its
-- float64 is exact
unfoldable pub pages_of : ℕ → ℕ → ℕ
unfolding float64 ceil_quotient
pages_of total size = if ltb 0 size then ceil_quotient (float64 total) size else 0

-- PageResult
pub record PageResult (W : Type 0) : Type 0 where
  pub list : List W
  pub total : ℕ
  pub page : ℕ
  pub page_size : ℕ
  pub pages : ℕ

-- How a transaction begins and ends: it gives an error instead of starting or of committing, and
-- rolls back after an error. `begin` gives the state inside, `finish` that after the function, which
-- tells whether it succeeded.
pub record Transactions (S : Type 0) : Type 0 where
  pub begin : S → Result GoError S
  pub commit : S → Option GoError × S
  pub rollback : S → S

abbrev pub committed : {A S : Type 0} → A → Option GoError × S → Result GoError A × S
committed a (none, s) = (ok a, s)
committed a (some e, s) = (err e, s)

abbrev pub end_transaction :
    {A S : Type 0} → Transactions S → Result GoError A × S → Result GoError A × S
end_transaction t (err e, s) = (err e, t.rollback s)
end_transaction t (ok a, s) = committed a (t.commit s)

abbrev pub begun :
    {A S : Type 0}
    → Transactions S
    → (S → Result GoError A × S)
    → S
    → Result GoError S
    → Result GoError A × S
begun t f s (err e) = (err e, s)
begun t f s (ok inside) = end_transaction t (f inside)

-- db.Transaction
abbrev pub transaction :
    {A S : Type 0} → Transactions S → (S → Result GoError A × S) → S → Result GoError A × S
transaction t f s = begun t f s (t.begin s)

module _ {W : Type 0} {S : Type 0} (g : Gorm W S) (t : Transactions S) (r : Repository W)
    (tenant : Option TenantContext) where
  abbrev pub page_result : ℕ → ℕ → ℕ → List W → PageResult W
  page_result page size total list = record {
    list = list;
    total = total;
    page = page;
    page_size = size;
    pages = pages_of total size;
  }

  abbrev pub list_page : Built W → ℕ → ℕ → Result GoError ℕ × S → Result GoError (PageResult W) × S
  list_page db page size (err e, s) = (err e, s)
  list_page db page size (ok total, s) =
      run g (codes "failed to find records") (λ a. ok (page_result page size total a.rows)) find
        (record db { offset = some (offset_of page size); limit = some size }) s

  -- findPageWithDB
  unfoldable pub find_page_with_db : Built W → ℕ → ℕ → S → Result GoError (PageResult W) × S
  unfolding normalize_repository_error pages_of
  find_page_with_db db page size s =
      list_page db page size (run g (codes "failed to count records") (λ a. ok a.number) count db s)

  -- findPageWithSnapshot
  abbrev pub find_page_with_snapshot :
      Option (QueryOption W) → ℕ → ℕ → (Built W → Built W) → S → Result GoError (PageResult W) × S
  find_page_with_snapshot opt page size apply s =
      transaction t (find_page_with_db (apply (build_query r tenant opt)) page size) s

  -- FindPageWithOpts, and FindPage without options
  unfoldable pub find_page_with_opts :
      ℤ
      → ℤ
      → Text
      → List (QueryOption W → QueryOption W)
      → List W
      → S
      → Result GoError (PageResult W) × S
  unfolding find_page_with_db build_query apply_unsafe_where
  find_page_with_opts page size query opts args s =
      find_page_with_snapshot (options_of g r tenant opts) (page_of page) (page_size_of size)
        (λ db. apply_unsafe_where db query args) s

  abbrev pub where_model : Option W → Built W → Built W
  where_model none db = db
  where_model (some model) db = where_given (structured model) db

  -- FindPageByModel
  unfoldable pub find_page_by_model :
      ℤ → ℤ → Option W → QueryOption W → S → Result GoError (PageResult W) × S
  unfolding find_page_with_db build_query
  find_page_by_model page size model opt s =
      find_page_with_snapshot (some opt) (page_of page) (page_size_of size) (where_model model) s
