-- ===== src/Lock/Refinement.antt =====
-- The lock of cache/redis/lock.go as an owner of its key: what the operations do to the values on the
-- server, step by step.
use ais_pkg.Prelude.{
  ◌∙◌, ℕ, zero, suc, ◌≡◌, refl, Bool, true, false, Result, ok, err, if◌then◌else◌,
}
use ais_pkg.Prelude.Text.{Text}
use ais_pkg.Prelude.Int.{ℤ, pos, pos_part, ltb_ℤ}
use ais_pkg.Lock.Redis.{Redis, RedisLaws, Delivery, NetError, canceled, set_nx}
use ais_pkg.Lock.Defs.{
  LockOption, Lock, LockError, lock_failed, unlock_failed, net, ctx_err, milliseconds, extend,
  release,
}
use ais_pkg.Lock.AutoExtend.{Factors, Try, TryResult, unchanged, try_loop, try_extend, after_try}
use ais_pkg.Lock.Acquire.{
  set_ttl, update_on_lock_lost, Attempt, Acquired, prepared, acquire_prepared, after_attempt,
  attempt_loop, after_extend, acquire_with_option,
}
use ais_pkg.Lock.Steps.{
  OwnStep, Trace, still, own, others, chain, set_nx-OwnStep, extend_script-OwnStep,
  release_script-OwnStep, nonzero-OwnStep, call-OwnStep,
}

module _ (r : Redis) (laws : RedisLaws r) (new : Text) {F C : Type 0} (factors : Factors F)
    (Other : r.State → r.State → Type 0) where
  extend-OwnStep :
      (l : Lock F C) (ttl : ℤ) (d : Delivery) (s : r.State)
      → OwnStep r laws l.key l.value new s (extend r l ttl d s).1
  unfolding extend
  extend-OwnStep l ttl d s =
      nonzero-OwnStep r laws l.key l.value new d lock_failed _ s
        (extend_script-OwnStep r laws l.key l.value new (milliseconds ttl) s)

  release-OwnStep :
      (l : Lock F C) (d : Delivery) (s : r.State)
      → OwnStep r laws l.key l.value new s (release r l d s).2
  unfolding release
  release-OwnStep l d s =
      nonzero-OwnStep r laws l.key l.value new d unlock_failed _ s
        (release_script-OwnStep r laws l.key l.value new s)

  after_attempt-Trace :
      (mine : Text) (opt : LockOption F C) (a : Attempt r) (l : Lock F C)
      (again : r.State → Acquired r F C) (x : Result NetError Bool × r.State) (s : r.State)
      → ((t : r.State) → Other t (a.others t))
      → ((t : r.State) → Trace r laws l.key mine new Other t (again t).2)
      → Trace r laws l.key mine new Other s x.1
      → Trace r laws l.key mine new Other s (after_attempt r factors opt new a l again x).2
  after_attempt-Trace mine opt a l again (err e, t) s acts more run = run
  after_attempt-Trace mine opt a l again (ok true, t) s acts more run = run
  after_attempt-Trace mine opt a l again (ok false, t) s acts more run = waited a.ctx_done
    where
      waited :
          (b : Bool)
          → Trace r laws l.key mine new Other s
              (if◌then◌else◌ {A = Acquired r F C} b
                (err ctx_err, l, a.others t)
                (again (a.others t))).2
      waited true = others run (acts t)
      waited false = chain r laws l.key mine new (others run (acts t)) (more (a.others t))

  attempt_loop-Trace :
      (mine : Text) (opt : LockOption F C) (attempts : ℕ → Attempt r) (n : ℕ) (l : Lock F C)
      (s : r.State)
      → ((i : ℕ) (t : r.State) → Other t ((attempts i).others t))
      → Trace r laws l.key mine new Other s (attempt_loop r factors opt new attempts n l s).2
  unfolding attempt_loop
  attempt_loop-Trace mine opt attempts zero l s acts = still
  attempt_loop-Trace mine opt attempts (suc n) l s acts =
      after_attempt-Trace mine opt (attempts n) l
        (λ t. attempt_loop r factors opt new attempts n l t) _ s (acts n)
        (λ t. attempt_loop-Trace mine opt attempts n l t acts)
        (own still (
          call-OwnStep r laws l.key mine new (attempts n).delivery (set_nx r l.key new l.ttl s) s
            (set_nx-OwnStep r laws l.key mine new l.ttl s)))

  after_extend-Trace :
      (mine : Text) (opt : LockOption F C) (l : Lock F C)
      (fresh : Lock F C → r.State → Acquired r F C) (x : Result LockError (Unit {0}) × r.State)
      (s : r.State)
      → ((t : r.State)
          → Trace r laws l.key mine new Other t (fresh (record l { acquired = false }) t).2)
      → Trace r laws l.key mine new Other s x.1
      → Trace r laws l.key mine new Other s (after_extend r factors opt l fresh x).2
  after_extend-Trace mine opt l fresh (ok u, t) s more run = run
  after_extend-Trace mine opt l fresh (err lock_failed, t) s more run =
      chain r laws l.key mine new run (more t)
  after_extend-Trace mine opt l fresh (err unlock_failed, t) s more run = run
  after_extend-Trace mine opt l fresh (err (net x), t) s more run = run
  after_extend-Trace mine opt l fresh (err ctx_err, t) s more run = run

  acquire_prepared-Trace :
      (opt : LockOption F C) (refresh : Delivery) (attempts : ℕ → Attempt r) (l : Lock F C)
      (s : r.State)
      → ((i : ℕ) (t : r.State) → Other t ((attempts i).others t))
      → Trace r laws l.key l.value new Other s
          (acquire_prepared r factors opt new refresh attempts l s).2
  unfolding acquire_prepared
  acquire_prepared-Trace opt refresh attempts l s acts = begun l.acquired
    where
      fresh : Lock F C → r.State → Acquired r F C
      fresh = attempt_loop r factors opt new attempts (pos_part opt.retry_times)

      begun :
          (b : Bool)
          → Trace r laws l.key l.value new Other s
              (if◌then◌else◌ {A = Acquired r F C} b
                (after_extend r factors opt l fresh (extend r l l.ttl refresh s))
                (fresh l s)).2
      begun true =
          after_extend-Trace l.value opt l fresh (extend r l l.ttl refresh s) s
            (λ t.
              attempt_loop-Trace l.value opt attempts (pos_part opt.retry_times)
                (record l { acquired = false }) t acts)
            (own still (extend-OwnStep l l.ttl refresh s))
      begun false = attempt_loop-Trace l.value opt attempts (pos_part opt.retry_times) l s acts

  -- What others do in a backoff, with a lock whose key and value are given.
  abbrev pub KeepsNames : (Lock F C → r.State → Lock F C × r.State) → Type 0
  KeepsNames act =
      (m : Lock F C) (u : r.State)
      → ((act m u).0.key ≡ m.key) × ((act m u).0.value ≡ m.value) × Other u (act m u).1

  extend_at :
      (key mine : Text) (l : Lock F C) (ttl : ℤ) (d : Delivery) (s : r.State)
      → l.key ≡ key
      → l.value ≡ mine
      → OwnStep r laws key mine new s (extend r l ttl d s).1
  extend_at key mine l ttl d s k v =
      named key mine (extend r l ttl d s).1 k v (extend-OwnStep l ttl d s)
    where
      named :
          (key mine : Text) (t : r.State)
          → l.key ≡ key
          → l.value ≡ mine
          → OwnStep r laws l.key l.value new s t
          → OwnStep r laws key mine new s t
      named key mine t k v step = rw (← k, ← v) step

  tried_again :
      (key mine : Text) (b : Bool) (m : Lock F C) (again : Lock F C → r.State → TryResult r F C)
      (t s : r.State)
      → Trace r laws key mine new Other t (again m t).state
      → Trace r laws key mine new Other s t
      → Trace r laws key mine new Other s
          (if◌then◌else◌ {A = TryResult r F C} b (unchanged r false m t) (again m t)).state
  tried_again key mine true m again t s more run = run
  tried_again key mine false m again t s more run = chain r laws key mine new run more

  after_try-Trace :
      (key mine : Text) (t : Try r F C) (l : Lock F C)
      (again : Lock F C → r.State → TryResult r F C) (x : Result LockError (Unit {0}) × r.State)
      (s : r.State)
      → Other x.1 (t.others l x.1).1
      → Trace r laws key mine new Other
          (t.others l x.1).1
          (again (t.others l x.1).0 (t.others l x.1).1).state
      → Trace r laws key mine new Other s x.1
      → Trace r laws key mine new Other s (after_try r t l again x).state
  after_try-Trace key mine t l again (ok u, v) s act more run = run
  after_try-Trace key mine t l again (err lock_failed, v) s act more run = run
  after_try-Trace key mine t l again (err (net canceled), v) s act more run = run
  after_try-Trace key mine t l again (err _, v) s act more run =
      tried_again key mine t.ctx_done (t.others l v).0 again (t.others l v).1 s more
        (others run act)

  try_loop-Trace :
      (key mine : Text) (tries : ℕ → Try r F C) (n : ℕ) (ttl : ℤ) (l : Lock F C) (s : r.State)
      → l.key ≡ key
      → l.value ≡ mine
      → ((i : ℕ) → KeepsNames (tries i).others)
      → Trace r laws key mine new Other s (try_loop r tries n ttl l s).state
  unfolding try_loop
  try_loop-Trace key mine tries zero ttl l s k v acts = still
  try_loop-Trace key mine tries (suc n) ttl l s k v acts =
      let x = extend r l ttl (tries n).delivery s in
      let (k', v', act) = acts n l x.1 in
      after_try-Trace key mine (tries n) l (λ l' t. try_loop r tries n ttl l' t) x s act
        (try_loop-Trace key mine tries n ttl _ _ (k' ∙ k) (v' ∙ v) acts)
        (own still (extend_at key mine l ttl (tries n).delivery s k v))

set_ttl-names :
    {F C : Type 0} (ttl : ℤ) (l : Lock F C)
    → ((set_ttl ttl l).key ≡ l.key) × ((set_ttl ttl l).value ≡ l.value)
unfolding set_ttl
set_ttl-names ttl l = same (ltb_ℤ (pos 0) ttl)
  where
    same :
        (b : Bool)
        → ((if b then record l { ttl = ttl } else l).key ≡ l.key)
          × ((if b then record l { ttl = ttl } else l).value ≡ l.value)
    same true = (refl, refl)
    same false = (refl, refl)

prepared-names :
    {F C : Type 0} (opt : LockOption F C) (l : Lock F C)
    → ((prepared opt l).key ≡ l.key) × ((prepared opt l).value ≡ l.value)
unfolding prepared update_on_lock_lost
prepared-names opt l = set_ttl-names opt.ttl l

renamed :
    (r : Redis) (laws : RedisLaws r) (new : Text) {Other : r.State → r.State → Type 0}
    {k v key value : Text} {s t : r.State}
    → k ≡ key
    → v ≡ value
    → Trace r laws k v new Other s t
    → Trace r laws key value new Other s t
renamed r laws new e d run = rw (← e, ← d) run

-- Refinement of an owner of the key. Let `Other` be any relation that holds of the server's state
-- before and after each action of others during the operation, and let the operations of the same
-- lock during tryExtend leave its key and its value. Whatever the deliveries of the calls,
-- AcquireWithOption and tryExtend of a lock lead from the server's state to the next by actions of
-- `Other` and by steps that, on the values of the keys, change nothing, or put the new value under
-- the lock's key when it is free, or free the key when it has the lock's own value. Extend and
-- Release are one such step. The new value of tryExtend, Extend and Release is any.
pub lock-refines_owner :
    (r : Redis) (laws : RedisLaws r) {F C : Type 0} (factors : Factors F) (opt : LockOption F C)
    (new : Text) (Other : r.State → r.State → Type 0) (refresh : Delivery)
    (attempts : ℕ → Attempt r) (tries : ℕ → Try r F C) (ttl : ℤ) (l : Lock F C) (s : r.State)
    → ((i : ℕ) (t : r.State) → Other t ((attempts i).others t))
    → ((i : ℕ) → KeepsNames r laws new factors Other (tries i).others)
    → Trace r laws l.key l.value new Other s
        (acquire_with_option r factors opt new refresh attempts l s).2
      × Trace r laws l.key l.value new Other s (try_extend r tries ttl l s).state
      × OwnStep r laws l.key l.value new s (extend r l ttl refresh s).1
      × OwnStep r laws l.key l.value new s (release r l refresh s).2
unfolding acquire_with_option try_extend
lock-refines_owner r laws factors opt new Other refresh attempts tries ttl l s attempts_act
      tries_act =
    (
      renamed r laws new (prepared-names opt l).0 (prepared-names opt l).1 (
          acquire_prepared-Trace r laws new factors Other opt refresh attempts (prepared opt l) s
            attempts_act),
      try_loop-Trace r laws new factors Other l.key l.value tries 3 ttl l s refl refl tries_act,
      extend-OwnStep r laws new factors Other l ttl refresh s,
      release-OwnStep r laws new factors Other l refresh s,
    )
