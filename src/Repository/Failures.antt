-- ===== src/Repository/Failures.antt =====
-- repository/error_helpers.go: what the normalization of errors keeps.
use ais_pkg.Prelude.{◌≡◌, refl, ap, Option, some, none}
use ais_pkg.Prelude.Text.{Text}
use ais_pkg.Prelude.Int.{ℤ}
use ais_pkg.Errors.Values.{GoError, biz, biz_caused, wrapped, as_biz_error, code}
use ais_pkg.Repository.Tenant.{
  find_biz_error, normalized, normalized_code, normalize_repository_error,
}

some_eq : (a b : GoError) → some a ≡ some b → a ≡ b
some_eq a b h = cc

find_biz_error-again : (e b : GoError) → find_biz_error e ≡ some b → find_biz_error b ≡ some b
unfolding find_biz_error
find_biz_error-again (biz c m) b h = rw (← some_eq (biz c m) b h) refl
find_biz_error-again (biz_caused c m cause) b h = rw (← some_eq (biz_caused c m cause) b h) refl
find_biz_error-again (wrapped m e) b h = find_biz_error-again e b h
find_biz_error-again _ b h = cc

find_biz_error-code : (e b : GoError) → find_biz_error e ≡ some b → code b ≡ code e
unfolding find_biz_error code as_biz_error
find_biz_error-code (biz c m) b h = rw (← some_eq (biz c m) b h) refl
find_biz_error-code (biz_caused c m cause) b h = rw (← some_eq (biz_caused c m cause) b h) refl
find_biz_error-code (wrapped m e) b h = find_biz_error-code e b h
find_biz_error-code _ b h = cc

-- The code that a repository reports: that of the BizError in the chain, or the one that the kind of
-- the error asks for.
abbrev pub reported_code : GoError → Option GoError → ℤ
reported_code e none = normalized_code e
reported_code e (some b) = code e

normalized_lem :
    (e : GoError) (m m' : Text) (o : Option GoError)
    → find_biz_error e ≡ o
    → (normalize_repository_error (normalized e m o) m' ≡ normalized e m o)
      × (code (normalized e m o) ≡ reported_code e o)
unfolding normalize_repository_error code as_biz_error find_biz_error
normalized_lem e m m' none h = (refl, refl)
normalized_lem e m m' (some b) h =
    (ap (normalized b m') (find_biz_error-again e b h), find_biz_error-code e b h)

-- Normalizing an error again changes nothing, so that an error keeps its code through the layers of a
-- repository; the code is that of the BizError in the chain if there is one, and otherwise the one
-- for the kind of the error: invalid argument, not found, timeout, canceled or internal.
pub normalize_repository_error-again :
    (e : GoError) (m m' : Text)
    → (normalize_repository_error (normalize_repository_error e m) m'
        ≡ normalize_repository_error e m)
      × (code (normalize_repository_error e m) ≡ reported_code e (find_biz_error e))
unfolding normalize_repository_error
normalize_repository_error-again e m m' = normalized_lem e m m' (find_biz_error e) refl
