-- ===== src/Idempotency/Defs.antt =====
-- idempotency/checker.go: Checker and its operations, over the server of the locks.
use ais_pkg.Prelude.{
  Bool, true, false, not, [], ◌∷◌, ◌++◌, Option, some, none, Result, ok, err, is_empty,
  if◌then◌else◌,
}
use ais_pkg.Prelude.Text.{Text, codes, text_eq, trim_space}
use ais_pkg.Prelude.Int.{ℤ, pos, eqb_ℤ}
use ais_pkg.Lock.Redis.{Redis, NetError, Delivery, call, set_nx}

-- ModeRequired, ModeBestEffort and ModeDisabled
unfoldable pub mode_required : Text
mode_required = codes "required"

unfoldable pub mode_best_effort : Text
mode_best_effort = codes "best_effort"

unfoldable pub mode_disabled : Text
mode_disabled = codes "disabled"

-- DefaultTTL, 24 hours in nanoseconds
abbrev pub default_ttl : ℤ
default_ttl = pos 86_400_000_000_000

-- DefaultEnvKey
unfoldable pub default_env_key : Text
default_env_key = codes "IDEMPOTENCY_MODE"

-- Checker: `available` is whether the client is not nil.
pub record Checker : Type 0 where
  pub available : Bool
  pub key_prefix : Text
  pub ttl : ℤ
  pub mode : Text

-- Config
pub record Config : Type 0 where
  pub key_prefix : Text
  pub ttl : ℤ
  pub mode : Text
  pub env_mode_key : Text

-- The mode that New reads from the environment: `getenv` stands for os.Getenv, and `to_lower` for
-- strings.ToLower.
unfoldable pub env_mode : (Text → Text) → (Text → Text) → Config → Text
env_mode getenv to_lower cfg =
    trim_space
      (to_lower (getenv (if is_empty cfg.env_mode_key then default_env_key else cfg.env_mode_key)))

abbrev pub or_best_effort : Text → Text
or_best_effort mode = if is_empty mode then mode_best_effort else mode

-- New
unfoldable pub new_checker : (Text → Text) → (Text → Text) → Bool → Config → Checker
unfolding env_mode
new_checker getenv to_lower available cfg = record {
  available = available;
  key_prefix = cfg.key_prefix;
  ttl = if eqb_ℤ cfg.ttl (pos 0) then default_ttl else cfg.ttl;
  mode = or_best_effort (if is_empty cfg.mode then env_mode getenv to_lower cfg else cfg.mode);
}

-- The errors of the checker: the client is missing, or the call failed.
pub data CheckError : Type 0 where
  not_available : CheckError
  failed_call : NetError → CheckError

-- IsDisabled
unfoldable pub is_disabled : Checker → Bool
is_disabled c = text_eq c.mode mode_disabled

-- c.mode == ModeRequired
unfoldable pub is_required : Checker → Bool
is_required c = text_eq c.mode mode_required

-- IsAvailable
unfoldable pub is_available : Checker → Bool
is_available c = c.available

abbrev pub full_key : Checker → Text → Text
full_key c key = c.key_prefix ++ key

-- The answer without a client, or after the error `e`: an error in the required mode, and "not
-- processed" otherwise.
abbrev pub degraded : Checker → CheckError → Result CheckError Bool
degraded c e = if is_required c then err e else ok false

abbrev pub answer_of : Checker → (Bool → Bool) → Result NetError Bool → Result CheckError Bool
answer_of c f (ok b) = ok (f b)
answer_of c f (err e) = degraded c (failed_call e)

abbrev pub mark_result : Result NetError Bool → Result CheckError (Unit {0})
mark_result (ok b) = ok tt
mark_result (err e) = err (failed_call e)

module _ (r : Redis) where
  abbrev pub present : Option Text → Bool
  present none = false
  present (some v) = true

  -- Check
  unfoldable pub check : Checker → Delivery → Text → r.State → Result CheckError Bool
  unfolding is_disabled is_required
  check c d key s =
      if is_disabled c
      then ok false
      else if not c.available
      then degraded c not_available
      else answer_of c (λ b. b) (call d (present (r.peek s (full_key c key)), s) s).0

  -- Mark
  unfoldable pub mark : Checker → Delivery → Text → r.State → Result CheckError (Unit {0}) × r.State
  unfolding is_disabled is_required
  mark c d key s =
      let sent = call d (true, r.put (full_key c key) (b'1' ∷ []) c.ttl s) s in
      if is_disabled c
      then (ok tt, s)
      else if not c.available
      then (if is_required c then err not_available else ok tt, s)
      else (mark_result sent.0, sent.1)

  -- CheckAndMark
  unfoldable pub check_and_mark :
      Checker → Delivery → Text → r.State → Result CheckError Bool × r.State
  unfolding is_disabled is_required
  check_and_mark c d key s =
      let sent = call d (set_nx r (full_key c key) (b'1' ∷ []) c.ttl s) s in
      if is_disabled c
      then (ok false, s)
      else if not c.available
      then (degraded c not_available, s)
      else (answer_of c not sent.0, sent.1)
