-- ===== src/Lock/AutoExtend.antt =====
-- cache/redis/lock.go: the loop that extends the lock, and what it does when the lock is lost.
use ais_pkg.Prelude.{
  ℕ, zero, suc, Bool, true, false, Option, some, none, Result, ok, err, if◌then◌else◌,
}
use ais_pkg.Prelude.Int.{ℤ, pos, leb_ℤ, ◌+ℤ◌}
use ais_pkg.Lock.Redis.{Redis, canceled, Delivery}
use ais_pkg.Lock.Defs.{LockOption, Lock, LockError, lock_failed, net, extend}

-- The comparisons and the default that the source makes with the factor: `invalid f` is
-- `f <= 0 || f > 1`, and `half` is 0.5.
pub record Factors (F : Type 0) : Type 0 where
  pub invalid : F → Bool
  pub half : F

-- ttl * 10
abbrev times_ten : ℤ → ℤ
times_ten t = let t2 = t +ℤ t in let t4 = t2 +ℤ t2 in t4 +ℤ t4 +ℤ t2

module _ {F C : Type 0} where
  -- startAutoExtend, without the goroutine, whose steps are those of `try_extend`
  unfoldable pub start_auto_extend : Factors F → LockOption F C → ℤ → Lock F C → Lock F C
  start_auto_extend factors opt ttl l = record l {
    extension = some (record {
      ttl = ttl;
      extend_factor = if factors.invalid opt.extend_factor then factors.half else opt.extend_factor;
      max_lifetime = if leb_ℤ opt.max_lifetime (pos 0) then times_ten ttl else opt.max_lifetime;
      ignore_parent_cancel = opt.ignore_parent_cancel;
    });
  }

  -- The callback, if the lock was held and has one.
  abbrev pub lost_callback : Lock F C → Option C
  lost_callback l = if l.acquired then l.default_opt.on_lock_lost else none

  -- onLockLostIfAcquired: the callback that is run, and the lock after it
  unfoldable pub on_lock_lost_if_acquired : Lock F C → Option C × Lock F C
  on_lock_lost_if_acquired l = (lost_callback l, record l { acquired = false })

-- What happens around one try of tryExtend: the call's delivery, then whether the context ends
-- during the backoff, and what others do meanwhile: other clients to the server, and the operations
-- of the same Lock, which tryExtend does not exclude, to the server and to the Lock.
pub record Try (r : Redis) (F C : Type 0) : Type 0 where
  pub delivery : Delivery
  pub ctx_done : Bool
  pub others : Lock F C → r.State → Lock F C × r.State

-- Whether tryExtend goes on, the callback that it ran, the lock and the state.
pub record TryResult (r : Redis) (F C : Type 0) : Type 0 where
  pub go_on : Bool
  pub callback : Option C
  pub lock : Lock F C
  pub state : r.State

module _ (r : Redis) {F C : Type 0} where
  abbrev pub give_up : Lock F C → r.State → TryResult r F C
  give_up l s =
      let (callback, l') = on_lock_lost_if_acquired l in
      record { go_on = false; callback = callback; lock = l'; state = s }

  abbrev pub unchanged : Bool → Lock F C → r.State → TryResult r F C
  unchanged go_on l s = record { go_on = go_on; callback = none; lock = l; state = s }

  -- One try, with what follows a temporary error.
  abbrev pub after_try :
      Try r F C
      → Lock F C
      → (Lock F C → r.State → TryResult r F C)
      → Result LockError (Unit {0}) × r.State
      → TryResult r F C
  after_try t l again (ok u, s) = unchanged true l s
  after_try t l again (err lock_failed, s) = give_up l s
  after_try t l again (err (net canceled), s) = unchanged false l s
  after_try t l again (err e, s) =
      let (l', s') = t.others l s in if t.ctx_done then unchanged false l' s' else again l' s'

  -- The loop of tryExtend, with `n` tries left.
  unfoldable pub try_loop : (ℕ → Try r F C) → ℕ → ℤ → Lock F C → r.State → TryResult r F C
  unfolding extend on_lock_lost_if_acquired
  try_loop tries zero ttl l s = give_up l s
  try_loop tries (suc n) ttl l s =
      after_try (tries n) l (λ l' s'. try_loop tries n ttl l' s')
        (extend r l ttl (tries n).delivery s)

  -- tryExtend
  unfoldable pub try_extend : (ℕ → Try r F C) → ℤ → Lock F C → r.State → TryResult r F C
  unfolding try_loop
  try_extend tries ttl l s = try_loop tries 3 ttl l s
