-- ===== src/Tests/Queries.antt =====
-- package repository on a database that keeps a log of its statements.
use ais_pkg.Prelude.{
  arith, ◌≡◌, ◌≤◌, ◌<◌, ◌*◌, ◌-◌, ◌+◌, ◌^◌, ◌⊎◌, refl, true, false, List, [], ◌∷◌, Option, some,
  none, Result, ok, All,
}
use ais_pkg.Prelude.Int.{pos, negsuc}
use ais_pkg.Errors.Values.{GoError}
use ais_pkg.Repository.Tenant.{TenantContext, Scoped}
use ais_pkg.Repository.Queries.{Built, Repository, no_option}
use ais_pkg.Repository.Operations.{Gorm, Verb}
use ais_pkg.Repository.Writes.{ModelFields}
use ais_pkg.Repository.Floats.{round_half_even, unit_of, parts_of, float64, ceil_quotient}
use ais_pkg.Repository.Pages.{
  Transactions, max_page_size, page_of, page_size_of, offset_of, pages_of,
}
use ais_pkg.Repository.Enforcement.{Allowed}
use ais_pkg.Repository.Calls.{finds_by_id, perform}
use ais_pkg.Repository.Guardian.{TransactionsKeep, perform-Kept}
use ais_pkg.Repository.PageBounds.{page_bounds}

-- Rows are their tenants and departments.
abbrev W : Type 0
W = Scoped

abbrev Log : Type 0
Log = List (Verb W × Built W)

abbrev g : Gorm W Log
g verb db log = (ok (record { rows = []; number = 1; groups = [] }), (verb, db) ∷ log)

abbrev t : Transactions Log
t = record { begin = λ s. ok s; commit = λ s. (none, s); rollback = λ s. s }

abbrev r : Repository W
r = record {
  to_upper = λ s. s;
  join_errors = λ o e. e;
  info = record { tenant_ignored = false; tenant_fields = ok true };
  schema = ok (record { fields = []; by_db_name = λ _. none; by_name = λ _. none });
  primary_is_ulid = some false;
  parse_id = λ s. ok s;
  strict_updates = true;
}

abbrev fields : ModelFields W
fields = record { scope_of = λ m. m; with_scope = λ own m. own; primary_is_zero = λ m. false }

abbrev tenant : Option TenantContext
tenant = some (record { tenant_id = b't' ∷ []; dept_id = some (b'd' ∷ []); is_admin = false })

-- All statements of the log are allowed.
abbrev Clean : Log → Type 0
Clean = All (λ (entry : Verb W × Built W). Allowed g r (λ m. m) tenant refl entry.0 entry.1)

tx : TransactionsKeep t Clean
tx = record { begins = λ s s' e i. rw (← same s s' e) i; commits = λ s i. i; rolls_back = λ s i. i }
  where
    same : (s s' : Log) → Path (Result GoError Log) (ok s) (ok s') → s ≡ s'
    same s s' e = cc

perform-Kept_example : Clean (perform g t r fields tenant (finds_by_id (b'7' ∷ []) no_option) [])
perform-Kept_example =
    perform-Kept g t r fields tenant Clean refl (λ mine m. refl)
      (λ verb db s allowed i. (allowed, i)) tx (finds_by_id (b'7' ∷ []) no_option) [] tt tt

-- The offset of a huge page wraps around.
huge : offset_of (page_of (pos (2 ^ 62 + 1))) 2 ≡ negsuc (2 ^ 63 - 1)
huge = refl

page_bounds_example :
    (1 ≤ page_of (negsuc 0))
    × (1 ≤ page_size_of (pos 1000))
    × (page_size_of (pos 1000) ≤ max_page_size)
    × (250 ≤ page_size_of (pos 1000) * pages_of 250 (page_size_of (pos 1000)))
    × (page_size_of (pos 1000) * pages_of 250 (page_size_of (pos 1000))
        < 250 + page_size_of (pos 1000))
    × ((2 ^ 63 ≤ (page_of (negsuc 0) - 1) * page_size_of (pos 1000))
        ⊎ (offset_of (page_of (negsuc 0)) (page_size_of (pos 1000))
            ≡ pos ((page_of (negsuc 0) - 1) * page_size_of (pos 1000))))
page_bounds_example = page_bounds (negsuc 0) (pos 1000) 250 (omega arith)

-- Beyond the whole numbers of a float64, a page is missing.
float_pages : pages_of (2 ^ 53 + 1) 1 ≡ 2 ^ 53
unfolding pages_of float64 ceil_quotient round_half_even unit_of parts_of
float_pages = refl

seven_pages : pages_of 601 100 ≡ 7
unfolding pages_of float64 ceil_quotient round_half_even unit_of parts_of
seven_pages = refl
