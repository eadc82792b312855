-- ===== src/Lock/Acquire.antt =====
-- cache/redis/lock.go: NewLock and AcquireWithOption.
use ais_pkg.Prelude.{
  ℕ, zero, suc, Bool, true, false, Option, some, none, Result, ok, err, if◌then◌else◌, ◌++◌,
}
use ais_pkg.Prelude.Text.{Text, codes}
use ais_pkg.Prelude.Int.{ℤ, pos, pos_part, ltb_ℤ}
use ais_pkg.Lock.Redis.{Redis, NetError, Delivery, call, set_nx}
use ais_pkg.Lock.Defs.{
  LockOption, Lock, LockError, lock_failed, net, ctx_err, extend, stop_auto_extend,
}
use ais_pkg.Lock.AutoExtend.{Factors, start_auto_extend}

-- What happens around one attempt: the call's delivery, then whether the context ends during the
-- delay, and what others do to the server meanwhile.
pub record Attempt (r : Redis) : Type 0 where
  pub delivery : Delivery
  pub ctx_done : Bool
  pub others : r.State → r.State

abbrev or_old : {C : Type 0} → Option C → Option C → Option C
or_old none old = old
or_old (some c) old = some c

-- The outcome of an acquisition: the result, the lock and the state.
abbrev pub Acquired : Redis → Type 0 → Type 0 → Type 0
Acquired r F C = Result LockError (Unit {0}) × Lock F C × r.State

module _ {F C : Type 0} where
  -- NewLock with the option `opt`; `uuid` is the text of uuid.New
  unfoldable pub new_lock : Text → Text → LockOption F C → Lock F C
  new_lock key uuid opt = record {
    key = codes "lock:" ++ key;
    value = uuid;
    ttl = opt.ttl;
    default_opt = opt;
    extension = none;
    acquired = false;
  }

  -- setTTL; the result of the source's function is the field after it
  unfoldable pub set_ttl : ℤ → Lock F C → Lock F C
  set_ttl ttl l = if ltb_ℤ (pos 0) ttl then record l { ttl = ttl } else l

  -- updateOnLockLost
  unfoldable pub update_on_lock_lost : Option C → Lock F C → Lock F C
  update_on_lock_lost callback l = record l {
    default_opt = record l.default_opt {
      on_lock_lost = or_old callback l.default_opt.on_lock_lost;
    };
  }

  -- The start or the stop of the extension after a success.
  unfoldable pub set_extension : Factors F → LockOption F C → ℤ → Lock F C → Lock F C
  unfolding start_auto_extend stop_auto_extend
  set_extension factors opt ttl l =
      if opt.auto_extend then start_auto_extend factors opt ttl l else stop_auto_extend l

  -- The lock as AcquireWithOption sets it up first.
  unfoldable pub prepared : LockOption F C → Lock F C → Lock F C
  unfolding update_on_lock_lost set_ttl
  prepared opt l = update_on_lock_lost opt.on_lock_lost (set_ttl opt.ttl l)

module _ (r : Redis) {F C : Type 0} (factors : Factors F) where
  -- One attempt, with what follows if the key is there.
  abbrev pub after_attempt :
      LockOption F C
      → Text
      → Attempt r
      → Lock F C
      → (r.State → Acquired r F C)
      → Result NetError Bool × r.State
      → Acquired r F C
  after_attempt opt value a l again (err e, s) = (err (net e), l, s)
  after_attempt opt value a l again (ok true, s) =
      (ok tt, set_extension factors opt l.ttl (record l { value = value; acquired = true }), s)
  after_attempt opt value a l again (ok false, s) =
      if a.ctx_done then (err ctx_err, l, a.others s) else again (a.others s)

  -- The loop of AcquireWithOption, with `n` attempts left.
  unfoldable pub attempt_loop :
      LockOption F C → Text → (ℕ → Attempt r) → ℕ → Lock F C → r.State → Acquired r F C
  unfolding set_extension
  attempt_loop opt value attempts zero l s = (err lock_failed, record l { acquired = false }, s)
  attempt_loop opt value attempts (suc n) l s =
      after_attempt opt value (attempts n) l (λ s'. attempt_loop opt value attempts n l s')
        (call (attempts n).delivery (set_nx r l.key value l.ttl s) s)

  -- What follows the try to extend a lock that was acquired before.
  abbrev pub after_extend :
      LockOption F C
      → Lock F C
      → (Lock F C → r.State → Acquired r F C)
      → Result LockError (Unit {0}) × r.State
      → Acquired r F C
  after_extend opt l fresh (ok u, s) = (ok tt, set_extension factors opt l.ttl l, s)
  after_extend opt l fresh (err lock_failed, s) = fresh (record l { acquired = false }) s
  after_extend opt l fresh (err e, s) = (err e, l, s)

  -- The part of AcquireWithOption after setTTL and updateOnLockLost.
  unfoldable pub acquire_prepared :
      LockOption F C → Text → Delivery → (ℕ → Attempt r) → Lock F C → r.State → Acquired r F C
  acquire_prepared opt uuid refresh attempts l s =
      let fresh = attempt_loop opt uuid attempts (pos_part opt.retry_times) in
      if l.acquired then after_extend opt l fresh (extend r l l.ttl refresh s) else fresh l s

  -- AcquireWithOption; `uuid` is the new value, and `refresh` the delivery of the call of Extend.
  unfoldable pub acquire_with_option :
      LockOption F C → Text → Delivery → (ℕ → Attempt r) → Lock F C → r.State → Acquired r F C
  acquire_with_option opt uuid refresh attempts l s =
      acquire_prepared opt uuid refresh attempts (prepared opt l) s

  -- Acquire
  unfoldable pub acquire : Text → Delivery → (ℕ → Attempt r) → Lock F C → r.State → Acquired r F C
  unfolding acquire_with_option
  acquire uuid refresh attempts l s = acquire_with_option l.default_opt uuid refresh attempts l s
