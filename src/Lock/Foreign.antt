-- ===== src/Lock/Foreign.antt =====
-- Mutual exclusion: what the operations of a lock do while another one's value is under the key.
use ais_pkg.Prelude.{
  ℕ, zero, suc, ◌≡◌, ◌≢◌, ◌∙◌, arith, Bool, true, false, some, Result, ok, err, inl, inr,
  Bool-cases, if◌then◌else◌,
}
use ais_pkg.Prelude.Text.{Text, text_eq_iff}
use ais_pkg.Prelude.Int.{ℤ, pos, ◌<ℤ◌, pos_part}
use ais_pkg.Lock.Redis.{Redis, RedisLaws, Delivery, answered, failed, call, set_nx}
use ais_pkg.Lock.Defs.{
  LockOption, Lock, LockError, lock_failed, unlock_failed, milliseconds, release_script,
  extend_script, nonzero, extend, release,
}
use ais_pkg.Lock.AutoExtend.{Factors}
use ais_pkg.Lock.Acquire.{
  Attempt, Acquired, prepared, acquire_prepared, after_attempt, attempt_loop, after_extend,
  acquire_with_option,
}
use ais_pkg.Lock.Holding.{value_is_iff, acquire_with_option-Holds, acquire_with_option-value}

module _ (r : Redis) (laws : RedisLaws r) (k w : Text) where
  -- The key `k` has the value `w`.
  abbrev pub Has : r.State → Type 0
  Has s = r.peek s k ≡ some w

  extend_script-Has :
      (key value : Text) (ms : ℤ) (s : r.State)
      → w ≢ value
      → Has s
      → Has (extend_script r key value ms s).1
  unfolding extend_script
  extend_script-Has key value ms s ne has = ground (
    arith,
    value_is_iff (r.peek s key) value,
    laws.peek-pexpire key k ms s,
    laws.peek-pexpire_past key k ms s,
    text_eq_iff key k,
  )

  release_script-Has :
      (key value : Text) (s : r.State) → w ≢ value → Has s → Has (release_script r key value s).1
  unfolding release_script
  release_script-Has key value s ne has =
      ground (arith, value_is_iff (r.peek s key) value, laws.peek-delete key k s, text_eq_iff key k)

  set_nx-Has : (key value : Text) (ttl : ℤ) (s : r.State) → Has s → Has (set_nx r key value ttl s).1
  unfolding set_nx
  set_nx-Has key value ttl s has =
      ground (arith, laws.peek-put key value k ttl s, text_eq_iff key k)

  nonzero-Has :
      (d : Delivery) (e : LockError) (a : Bool × r.State) (s : r.State)
      → Has s
      → Has a.1
      → Has (nonzero r e (call d a s)).1
  nonzero-Has answered e (true, s') s h h' = h'
  nonzero-Has answered e (false, s') s h h' = h'
  nonzero-Has (failed true x) e (b, s') s h h' = h'
  nonzero-Has (failed false x) e (b, s') s h h' = h

  module _ {F C : Type 0} where
    pub extend-Has :
        (l : Lock F C) (ttl : ℤ) (d : Delivery) (s : r.State)
        → w ≢ l.value
        → Has s
        → Has (extend r l ttl d s).1
    unfolding extend
    extend-Has l ttl d s ne h =
        nonzero-Has d lock_failed _ s h (extend_script-Has l.key l.value (milliseconds ttl) s ne h)

    -- A lock neither frees nor changes a key that has another value than the lock's, whatever the
    -- key, with Release or with Extend for any time, answered or not.
    pub foreign_value_stays :
        (l : Lock F C) (ttl : ℤ) (d : Delivery) (s : r.State)
        → w ≢ l.value
        → Has s
        → Has (release r l d s).2 × Has (extend r l ttl d s).1
    unfolding release
    foreign_value_stays l ttl d s ne h = (
      nonzero-Has d unlock_failed _ s h (release_script-Has l.key l.value s ne h),
      extend-Has l ttl d s ne h,
    )

    module _ (factors : Factors F) (opt : LockOption F C) (uuid : Text) where
      after_attempt-Has :
          (a : Attempt r) (l : Lock F C) (s : r.State) (again : r.State → Acquired r F C)
          (d : Delivery) (x : Bool × r.State)
          → Has s
          → Has x.1
          → ((s' : r.State) → Has s' → Has (a.others s'))
          → ((s' : r.State) → Has s' → Has (again s').2)
          → Has (after_attempt r factors opt uuid a l again (call d x s)).2
      after_attempt-Has a l s again answered (true, s') h h' keeps rest = h'
      after_attempt-Has a l s again answered (false, s') h h' keeps rest =
          elim (Bool-cases a.ctx_done) [
            | inl e ↦ rw e (keeps s' h')
            | inr e ↦ rw e (rest (a.others s') (keeps s' h'))
          ]
      after_attempt-Has a l s again (failed true e) (b, s') h h' keeps rest = h'
      after_attempt-Has a l s again (failed false e) (b, s') h h' keeps rest = h

      attempt_loop-Has :
          (attempts : ℕ → Attempt r) (n : ℕ) (l : Lock F C) (s : r.State)
          → ((i : ℕ) (s' : r.State) → Has s' → Has ((attempts i).others s'))
          → Has s
          → Has (attempt_loop r factors opt uuid attempts n l s).2
      unfolding attempt_loop
      attempt_loop-Has attempts zero l s keeps h = h
      attempt_loop-Has attempts (suc n) l s keeps h =
          after_attempt-Has (attempts n) l s (λ s'. attempt_loop r factors opt uuid attempts n l s')
            (attempts n).delivery (set_nx r l.key uuid l.ttl s) h (set_nx-Has l.key uuid l.ttl s h)
            (keeps n) (λ s' h'. attempt_loop-Has attempts n l s' keeps h')

      after_extend-Has :
          (l : Lock F C) (fresh : Lock F C → r.State → Acquired r F C)
          (x : Result LockError (Unit {0}) × r.State)
          → Has x.1
          → ((j : Lock F C) (s' : r.State) → Has s' → Has (fresh j s').2)
          → Has (after_extend r factors opt l fresh x).2
      after_extend-Has l fresh (ok u, s) h rest = h
      after_extend-Has l fresh (err lock_failed, s) h rest =
          rest (record l { acquired = false }) s h
      after_extend-Has l fresh (err _, s) h rest = h

      Has-if : (b : Bool) (x y : Acquired r F C) → Has x.2 → Has y.2 → Has (if b then x else y).2
      Has-if true x y h h' = h
      Has-if false x y h h' = h'

      prepared_same :
          (l : Lock F C) → ((prepared opt l).key ≡ l.key) × ((prepared opt l).value ≡ l.value)
      unfolding prepared
      prepared_same l = ground arith

      acquire_with_option-Has :
          (refresh : Delivery) (attempts : ℕ → Attempt r) (l : Lock F C) (s : r.State)
          → w ≢ l.value
          → ((i : ℕ) (s' : r.State) → Has s' → Has ((attempts i).others s'))
          → Has s
          → Has (acquire_with_option r factors opt uuid refresh attempts l s).2
      unfolding acquire_with_option acquire_prepared
      acquire_with_option-Has refresh attempts l s ne keeps h =
          let p = prepared opt l in
          let fresh = attempt_loop r factors opt uuid attempts (pos_part opt.retry_times) in
          Has-if p.acquired _ _
            (after_extend-Has p fresh (extend r p p.ttl refresh s)
              (extend-Has p p.ttl refresh s (λ e. ne (e ∙ (prepared_same l).1)) h)
              (λ j s' h'. attempt_loop-Has attempts (pos_part opt.retry_times) j s' keeps h'))
            (attempt_loop-Has attempts (pos_part opt.retry_times) p s keeps h)

      -- Mutual exclusion. While the server has a value under a lock's key that is neither the lock's
      -- nor its new one, and others keep it there, AcquireWithOption does not succeed, and the value
      -- is there afterwards. The time to live of the lock is a millisecond or more.
      pub acquire_excluded :
          (refresh : Delivery) (attempts : ℕ → Attempt r) (l : Lock F C) (s : r.State)
          → pos 0 <ℤ milliseconds (prepared opt l).ttl
          → l.key ≡ k
          → w ≢ l.value
          → w ≢ uuid
          → ((i : ℕ) (s' : r.State) → Has s' → Has ((attempts i).others s'))
          → Has s
          → ((acquire_with_option r factors opt uuid refresh attempts l s).0 ≢ ok tt)
            × Has (acquire_with_option r factors opt uuid refresh attempts l s).2
      acquire_excluded refresh attempts l s long same old new keeps h = (
        λ done.
            let (holds, key) =
              acquire_with_option-Holds r laws factors opt uuid refresh attempts l s long done in
            let value =
              acquire_with_option-value r laws factors opt uuid refresh attempts l s long done in
            let after = acquire_with_option-Has refresh attempts l s old keeps h in
            let found = rw (key, same) at holds.owned in
            elim value [ inl e ↦ new (cc) | inr e ↦ old (cc) ],
        acquire_with_option-Has refresh attempts l s old keeps h,
      )
