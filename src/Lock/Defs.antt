-- ===== src/Lock/Defs.antt =====
-- cache/redis/lock.go: Lock and its operations, each as one function. acquireMu keeps calls of
-- AcquireWithOption apart from each other, but not from Extend, Release and the goroutine of
-- autoExtendLoop. What these and other clients do shows between the tries of tryExtend, to the lock
-- and to the server, and between the attempts of AcquireWithOption, to the server only.
use ais_pkg.Prelude.{
  ◌+◌, ◌/◌, Bool, true, false, Option, some, none, Result, ok, err, if◌then◌else◌,
}
use ais_pkg.Prelude.Text.{Text, text_eq}
use ais_pkg.Prelude.Int.{ℤ, pos, negsuc, neg}
use ais_pkg.Lock.Redis.{Redis, NetError, Delivery, call}

-- LockOption. The floating-point factor is of an abstract type `F`, and the callback of a type `C`.
pub record LockOption (F C : Type 0) : Type 0 where
  pub ttl : ℤ
  pub retry_times : ℤ
  pub retry_delay : ℤ
  pub auto_extend : Bool
  pub extend_factor : F
  pub max_lifetime : ℤ
  pub ignore_parent_cancel : Bool
  pub on_lock_lost : Option C

-- The parameters with which the loop that extends the lock was started.
pub record Extension (F : Type 0) : Type 0 where
  pub ttl : ℤ
  pub extend_factor : F
  pub max_lifetime : ℤ
  pub ignore_parent_cancel : Bool

-- Lock; `extension` is set while extendCancel is not nil.
pub record Lock (F C : Type 0) : Type 0 where
  pub key : Text
  pub value : Text
  pub ttl : ℤ
  pub default_opt : LockOption F C
  pub extension : Option (Extension F)
  pub acquired : Bool

-- ErrLockFailed, ErrUnlockFailed, an error of the client library, and an error of the context
pub data LockError : Type 0 where
  lock_failed unlock_failed : LockError
  net : NetError → LockError
  ctx_err : LockError

-- ttl.Milliseconds(), which rounds towards 0
abbrev pub milliseconds : ℤ → ℤ
milliseconds (pos n) = pos (n / 1_000_000)
milliseconds (negsuc n) = neg ((n + 1) / 1_000_000)

abbrev pub value_is : Option Text → Text → Bool
value_is none v = false
value_is (some w) v = text_eq w v

abbrev pub is_value : Text → Result NetError (Option Text) → Result LockError Bool
is_value v (ok o) = ok (value_is o v)
is_value v (err x) = err (net x)

-- stopAutoExtend
unfoldable pub stop_auto_extend : {F C : Type 0} → Lock F C → Lock F C
stop_auto_extend l = record l { extension = none }

module _ (r : Redis) where
  -- The script of Release.
  unfoldable pub release_script : Text → Text → r.State → Bool × r.State
  release_script key value s =
      if value_is (r.peek s key) value then (true, r.delete key s) else (false, s)

  -- The script of Extend.
  unfoldable pub extend_script : Text → Text → ℤ → r.State → Bool × r.State
  extend_script key value ms s =
      if value_is (r.peek s key) value then (true, r.pexpire key ms s) else (false, s)

  -- The result of a script: 0 is the error `e`.
  abbrev pub nonzero :
      {S : Type 0} → LockError → Result NetError Bool × S → Result LockError (Unit {0}) × S
  nonzero e (ok true, s) = (ok tt, s)
  nonzero e (ok false, s) = (err e, s)
  nonzero e (err x, s) = (err (net x), s)

  module _ {F C : Type 0} where
    -- Extend
    unfoldable pub extend :
        Lock F C → ℤ → Delivery → r.State → Result LockError (Unit {0}) × r.State
    unfolding extend_script
    extend l ttl delivery s =
        nonzero lock_failed (call delivery (extend_script l.key l.value (milliseconds ttl) s) s)

    -- Release
    unfoldable pub release :
        Lock F C → Delivery → r.State → Result LockError (Unit {0}) × Lock F C × r.State
    unfolding release_script stop_auto_extend
    release l delivery s =
        let (result, s') =
          nonzero unlock_failed (call delivery (release_script l.key l.value s) s) in
        (result, stop_auto_extend l, s')

    -- IsHeld
    unfoldable pub is_held : Lock F C → Delivery → r.State → Result LockError Bool
    is_held l delivery s = is_value l.value (call delivery (r.peek s l.key, s) s).0
