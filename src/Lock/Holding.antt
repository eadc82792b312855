-- ===== src/Lock/Holding.antt =====
-- What an acquisition, an extension and a release achieve on the server.
use ais_pkg.Prelude.{
  ℕ, zero, suc, ◌≡◌, ◌≢◌, ◌↔◌, refl, ap, ◌∙◌, arith, Bool, true, false, Option, some, none, Result,
  ok, err, ◌⊎◌, inl, inr, Bool-cases, if◌then◌else◌,
}
use ais_pkg.Prelude.Text.{Text, text_eq_iff, text_eq→eq, text_eq_refl}
use ais_pkg.Prelude.Int.{ℤ, pos, ◌<ℤ◌, pos_part}
use ais_pkg.Lock.Redis.{Redis, RedisLaws, Delivery, answered, failed, call, set_nx}
use ais_pkg.Lock.Defs.{
  LockOption, Lock, LockError, lock_failed, unlock_failed, net, milliseconds, value_is,
  release_script, extend_script, nonzero, extend, release, stop_auto_extend,
}
use ais_pkg.Lock.AutoExtend.{Factors}
use ais_pkg.Lock.Acquire.{
  Attempt, Acquired, prepared, acquire_prepared, set_extension, after_attempt, attempt_loop,
  after_extend, acquire_with_option,
}

-- The lock believes that it is held, and the server has its value under its key.
pub record Holds (r : Redis) {F C : Type 0} (l : Lock F C) (s : r.State) : Type 0 where
  pub acquired : l.acquired ≡ true
  pub owned : r.peek s l.key ≡ some l.value

pub value_is_iff : (o : Option Text) (v : Text) → (value_is o v ≡ true) ↔ (o ≡ some v)
value_is_iff none v = (λ h. cc, λ h. cc)
value_is_iff (some w) v =
    (λ h. ap some (text_eq→eq w v h), λ h. (text_eq_iff w v).1 (some_eq w v h))
  where
    some_eq : (w v : Text) → some w ≡ some v → w ≡ v
    some_eq w v h = cc

module _ (r : Redis) (laws : RedisLaws r) where
  extend_script_keeps :
      (key value : Text) (ms : ℤ) (s : r.State)
      → pos 0 <ℤ ms
      → (extend_script r key value ms s).0 ≡ true
      → r.peek (extend_script r key value ms s).1 key ≡ some value
  unfolding extend_script
  extend_script_keeps key value ms s h found =
      ground (arith, value_is_iff (r.peek s key) value, laws.peek-pexpire key key ms s)

  set_nx_sets :
      (key value : Text) (ttl : ℤ) (s : r.State)
      → (set_nx r key value ttl s).0 ≡ true
      → (r.peek s key ≡ none) × (r.peek (set_nx r key value ttl s).1 key ≡ some value)
  unfolding set_nx
  set_nx_sets key value ttl s set =
      ground (arith, laws.peek-put key value key ttl s, text_eq_refl key)

  release_script_frees :
      (key value : Text) (s : r.State)
      → (release_script r key value s).0 ≡ true
      → (r.peek s key ≡ some value) × (r.peek (release_script r key value s).1 key ≡ none)
  unfolding release_script
  release_script_frees key value s found =
      ground
        (arith, value_is_iff (r.peek s key) value, laws.peek-delete key key s, text_eq_refl key)

  release_script_foreign :
      (key value : Text) (s : r.State)
      → r.peek s key ≢ some value
      → release_script r key value s ≡ (false, s)
  unfolding release_script
  release_script_foreign key value s ne = ground (arith, value_is_iff (r.peek s key) value)

  -- A script's answer other than 0 came back with the script done.
  pub nonzero-ok :
      (d : Delivery) (e : LockError) (a : Bool × r.State) (s : r.State)
      → (nonzero r e (call d a s)).0 ≡ ok tt
      → (a.0 ≡ true) × ((nonzero r e (call d a s)).1 ≡ a.1)
  nonzero-ok answered e (true, s') s h = (refl, refl)
  nonzero-ok answered e (false, s') s h = cc
  nonzero-ok (failed true x) e (b, s') s h = cc
  nonzero-ok (failed false x) e (b, s') s h = cc

  nonzero-zero :
      (d : Delivery) (e : LockError) (s : r.State)
      → (x : LockError) × (nonzero r e (call d (false, s) s) ≡ (err x, s))
  nonzero-zero answered e s = (e, refl)
  nonzero-zero (failed true x) e s = (net x, refl)
  nonzero-zero (failed false x) e s = (net x, refl)

  module _ {F C : Type 0} where
    pub extend_keeps :
        (l : Lock F C) (ttl : ℤ) (d : Delivery) (s : r.State)
        → pos 0 <ℤ milliseconds ttl
        → (extend r l ttl d s).0 ≡ ok tt
        → r.peek (extend r l ttl d s).1 l.key ≡ some l.value
    unfolding extend
    extend_keeps l ttl d s h done =
        let (found, same) = nonzero-ok d lock_failed _ s done in
        rw same (extend_script_keeps l.key l.value (milliseconds ttl) s h found)

    -- A release that succeeds found the lock's value on the server and has freed the key, and the
    -- extension has stopped.
    pub release_frees :
        (l : Lock F C) (d : Delivery) (s : r.State)
        → (release r l d s).0 ≡ ok tt
        → (r.peek s l.key ≡ some l.value)
          × (r.peek (release r l d s).2 l.key ≡ none)
          × ((release r l d s).1.extension ≡ none)
    unfolding release stop_auto_extend
    release_frees l d s done =
        let (found, same) = nonzero-ok d unlock_failed _ s done in
        let (owned, freed) = release_script_frees l.key l.value s found in
        (owned, rw same freed, refl)

    -- A release of a lock whose value is not on the server fails and leaves the server as it was.
    pub release_foreign :
        (l : Lock F C) (d : Delivery) (s : r.State)
        → r.peek s l.key ≢ some l.value
        → (x : LockError) × ((release r l d s).0 ≡ err x) × ((release r l d s).2 ≡ s)
    unfolding release
    release_foreign l d s ne =
        let (x, e) = nonzero-zero d unlock_failed s in
        (
          x,
          rw (release_script_foreign l.key l.value s ne, e),
          rw (release_script_foreign l.key l.value s ne, e),
        )

    module _ (factors : Factors F) (opt : LockOption F C) (uuid : Text) where
      -- A successful outcome of an acquisition of the key, by a lock with the value `old`.
      abbrev Good : Text → Text → Acquired r F C → Type 0
      Good key old o = Holds r o.1 o.2 × (o.1.key ≡ key) × ((o.1.value ≡ uuid) ⊎ (o.1.value ≡ old))

      set_extension-same :
          (ttl : ℤ) (l : Lock F C)
          → ((set_extension factors opt ttl l).acquired ≡ l.acquired)
            × ((set_extension factors opt ttl l).value ≡ l.value)
            × ((set_extension factors opt ttl l).key ≡ l.key)
      unfolding set_extension
      set_extension-same ttl l = ground arith

      set_extension-Holds :
          (old : Text) (ttl : ℤ) (l : Lock F C) (s : r.State)
          → l.acquired ≡ true
          → r.peek s l.key ≡ some l.value
          → (l.value ≡ uuid) ⊎ (l.value ≡ old)
          → Good l.key old (ok tt, set_extension factors opt ttl l, s)
      set_extension-Holds old ttl l s a o v =
          let (same_a, same_v, same_k) = set_extension-same ttl l in
          (record { acquired = same_a ∙ a; owned = rw (same_k, same_v) o }, same_k, rw same_v v)

      after_attempt-Good :
          (old : Text) (a : Attempt r) (l : Lock F C) (s : r.State)
          (again : r.State → Acquired r F C) (d : Delivery) (x : Bool × r.State)
          → (x.0 ≡ true → r.peek x.1 l.key ≡ some uuid)
          → ((s' : r.State) → (again s').0 ≡ ok tt → Good l.key old (again s'))
          → (after_attempt r factors opt uuid a l again (call d x s)).0 ≡ ok tt
          → Good l.key old (after_attempt r factors opt uuid a l again (call d x s))
      after_attempt-Good old a l s again answered (true, s') set rest done =
          set_extension-Holds old l.ttl (record l { value = uuid; acquired = true }) s' refl
            (set refl) (inl refl)
      after_attempt-Good old a l s again answered (false, s') set rest done =
          elim (Bool-cases a.ctx_done) [
            | inl e ↦ cc (ap (λ b. b) (rw e at done))
            | inr e ↦ rw e (rest (a.others s') (rw e at done))
          ]
      after_attempt-Good old a l s again (failed true e) (b, s') set rest done = cc
      after_attempt-Good old a l s again (failed false e) (b, s') set rest done = cc

      attempt_loop-Good :
          (old : Text) (attempts : ℕ → Attempt r) (n : ℕ) (l : Lock F C) (s : r.State)
          → (attempt_loop r factors opt uuid attempts n l s).0 ≡ ok tt
          → Good l.key old (attempt_loop r factors opt uuid attempts n l s)
      unfolding attempt_loop
      attempt_loop-Good old attempts zero l s done = cc
      attempt_loop-Good old attempts (suc n) l s done =
          after_attempt-Good old (attempts n) l s
            (λ s'. attempt_loop r factors opt uuid attempts n l s') (attempts n).delivery
            (set_nx r l.key uuid l.ttl s) (λ set. (set_nx_sets l.key uuid l.ttl s set).1)
            (λ s'. attempt_loop-Good old attempts n l s') done

      after_extend-Good :
          (old : Text) (l : Lock F C) (fresh : Lock F C → r.State → Acquired r F C)
          (x : Result LockError (Unit {0}) × r.State)
          → l.acquired ≡ true
          → l.value ≡ old
          → (x.0 ≡ ok tt → r.peek x.1 l.key ≡ some l.value)
          → ((k : Lock F C) (s' : r.State) → (fresh k s').0 ≡ ok tt → Good k.key old (fresh k s'))
          → (after_extend r factors opt l fresh x).0 ≡ ok tt
          → Good l.key old (after_extend r factors opt l fresh x)
      after_extend-Good old l fresh (ok u, s) a same kept rest done =
          set_extension-Holds old l.ttl l s a (kept refl) (inr same)
      after_extend-Good old l fresh (err lock_failed, s) a same kept rest done =
          rest (record l { acquired = false }) s done
      after_extend-Good old l fresh (err _, s) a same kept rest done = cc

      prepared-key : (l : Lock F C) → (prepared opt l).key ≡ l.key
      unfolding prepared
      prepared-key l = ground arith

      Good-if :
          (key old : Text) (b : Bool) (x y : Acquired r F C)
          → (b ≡ true → x.0 ≡ ok tt → Good key old x)
          → (y.0 ≡ ok tt → Good key old y)
          → (if b then x else y).0 ≡ ok tt
          → Good key old (if b then x else y)
      Good-if key old true x y f g done = f refl done
      Good-if key old false x y f g done = g done

      acquire_prepared-Good :
          (refresh : Delivery) (attempts : ℕ → Attempt r) (l : Lock F C) (s : r.State)
          → pos 0 <ℤ milliseconds l.ttl
          → (acquire_prepared r factors opt uuid refresh attempts l s).0 ≡ ok tt
          → Good l.key l.value (acquire_prepared r factors opt uuid refresh attempts l s)
      unfolding acquire_prepared
      acquire_prepared-Good refresh attempts l s long done =
          Good-if l.key l.value l.acquired _ _
            (λ a.
              after_extend-Good l.value l
                (attempt_loop r factors opt uuid attempts (pos_part opt.retry_times))
                (extend r l l.ttl refresh s) a refl (extend_keeps l l.ttl refresh s long)
                (λ k s'. attempt_loop-Good l.value attempts (pos_part opt.retry_times) k s'))
            (attempt_loop-Good l.value attempts (pos_part opt.retry_times) l s) done

      prepared-value : (l : Lock F C) → (prepared opt l).value ≡ l.value
      unfolding prepared
      prepared-value l = ground arith

      -- The value of a lock that was acquired is the new one or the one that it had.
      pub acquire_with_option-value :
          (refresh : Delivery) (attempts : ℕ → Attempt r) (l : Lock F C) (s : r.State)
          → pos 0 <ℤ milliseconds (prepared opt l).ttl
          → (acquire_with_option r factors opt uuid refresh attempts l s).0 ≡ ok tt
          → ((acquire_with_option r factors opt uuid refresh attempts l s).1.value ≡ uuid)
            ⊎ ((acquire_with_option r factors opt uuid refresh attempts l s).1.value ≡ l.value)
      unfolding acquire_with_option
      acquire_with_option-value refresh attempts l s long done =
          elim (acquire_prepared-Good refresh attempts (prepared opt l) s long done).2 [
            | inl p ↦ inl p
            | inr q ↦ inr (q ∙ prepared-value l)
          ]

      -- If AcquireWithOption succeeds, by a refresh of a lock that was held or by a new value, the lock
      -- is marked as acquired, its key is the same, and the server has the lock's value under it. The
      -- time to live of the lock is a millisecond or more.
      pub acquire_with_option-Holds :
          (refresh : Delivery) (attempts : ℕ → Attempt r) (l : Lock F C) (s : r.State)
          → pos 0 <ℤ milliseconds (prepared opt l).ttl
          → (acquire_with_option r factors opt uuid refresh attempts l s).0 ≡ ok tt
          → Holds r
              (acquire_with_option r factors opt uuid refresh attempts l s).1
              (acquire_with_option r factors opt uuid refresh attempts l s).2
            × ((acquire_with_option r factors opt uuid refresh attempts l s).1.key ≡ l.key)
      unfolding acquire_with_option
      acquire_with_option-Holds refresh attempts l s long done =
          let (holds, key, _) =
            acquire_prepared-Good refresh attempts (prepared opt l) s long done in
          (holds, key ∙ prepared-key l)
