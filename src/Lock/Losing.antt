-- ===== src/Lock/Losing.antt =====
-- How a lock finds out that it is lost: Extend, and when tryExtend goes on.
use ais_pkg.Prelude.{
  ℕ, zero, suc, ◌≡◌, refl, arith, true, false, some, none, Result, ok, err, inl, inr, ◌⊎◌,
  Bool-cases,
}
use ais_pkg.Prelude.Text.{Text, text_eq_refl}
use ais_pkg.Prelude.Int.{ℤ, pos, ◌≤ℤ◌, ◌<ℤ◌}
use ais_pkg.Lock.Redis.{Redis, RedisLaws, canceled, Delivery}
use ais_pkg.Lock.Defs.{Lock, LockError, lock_failed, net, milliseconds, extend_script, extend}
use ais_pkg.Lock.AutoExtend.{Try, TryResult, after_try, try_loop, try_extend}
use ais_pkg.Lock.Holding.{value_is_iff, extend_keeps, nonzero-ok}

module _ (r : Redis) (laws : RedisLaws r) where
  extend_script_past :
      (key value : Text) (ms : ℤ) (s : r.State)
      → ms ≤ℤ pos 0
      → (extend_script r key value ms s).0 ≡ true
      → r.peek (extend_script r key value ms s).1 key ≡ none
  unfolding extend_script
  extend_script_past key value ms s past found = ground (
    arith,
    value_is_iff (r.peek s key) value,
    laws.peek-pexpire_past key key ms s,
    text_eq_refl key,
  )

module _ (r : Redis) (laws : RedisLaws r) {F C : Type 0} where
  -- An Extend for less than a millisecond that succeeds has taken the lock's key away.
  pub extend_below_millisecond :
      (l : Lock F C) (ttl : ℤ) (d : Delivery) (s : r.State)
      → milliseconds ttl ≤ℤ pos 0
      → (extend r l ttl d s).0 ≡ ok tt
      → r.peek (extend r l ttl d s).1 l.key ≡ none
  unfolding extend
  extend_below_millisecond l ttl d s past done =
      let (found, same) = nonzero-ok r laws d lock_failed _ s done in
      rw same (extend_script_past r laws l.key l.value (milliseconds ttl) s past found)

  -- tryExtend goes on only with the lock's value on the server.
  abbrev pub Kept : TryResult r F C → Type 0
  Kept t = (t.go_on ≡ false) ⊎ (r.peek t.state t.lock.key ≡ some t.lock.value)

  after_try-Kept :
      (t : Try r F C) (l : Lock F C) (again : Lock F C → r.State → TryResult r F C)
      (x : Result LockError (Unit {0}) × r.State)
      → (x.0 ≡ ok tt → r.peek x.1 l.key ≡ some l.value)
      → ((m : Lock F C) (s : r.State) → Kept (again m s))
      → Kept (after_try r t l again x)
  after_try-Kept t l again (ok u, s) kept rest = inr (kept refl)
  after_try-Kept t l again (err lock_failed, s) kept rest = inl refl
  after_try-Kept t l again (err (net canceled), s) kept rest = inl refl
  after_try-Kept t l again (err _, s) kept rest = elim (Bool-cases t.ctx_done) [
    | inl e ↦ rw e (inl refl)
    | inr e ↦ rw e (rest (t.others l s).0 (t.others l s).1)
  ]

  try_loop-Kept :
      (tries : ℕ → Try r F C) (n : ℕ) (ttl : ℤ) (l : Lock F C) (s : r.State)
      → pos 0 <ℤ milliseconds ttl
      → Kept (try_loop r tries n ttl l s)
  unfolding try_loop
  try_loop-Kept tries zero ttl l s long = inl refl
  try_loop-Kept tries (suc n) ttl l s long =
      after_try-Kept (tries n) l (λ l' s'. try_loop r tries n ttl l' s')
        (extend r l ttl (tries n).delivery s) (extend_keeps r laws l ttl (tries n).delivery s long)
        (λ l' s'. try_loop-Kept tries n ttl l' s' long)

  -- When tryExtend lets the extension go on, the lock's value is on the server, if the time is a
  -- millisecond or more.
  pub try_extend-Kept :
      (tries : ℕ → Try r F C) (ttl : ℤ) (l : Lock F C) (s : r.State)
      → pos 0 <ℤ milliseconds ttl
      → Kept (try_extend r tries ttl l s)
  unfolding try_extend
  try_extend-Kept tries ttl l s long = try_loop-Kept tries 3 ttl l s long
