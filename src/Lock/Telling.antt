-- ===== src/Lock/Telling.antt =====
-- What the tries of tryExtend in cache/redis/lock.go come to, and what is told of it.
use ais_pkg.Prelude.{
  ℕ, zero, suc, ◌≡◌, ◌<◌, ◌⊎◌, refl, ap, ◌∙◌, arith, Bool, true, false, none, Result, ok, err, inl,
  inr, Bool-cases,
}
use ais_pkg.Prelude.Int.{ℤ}
use ais_pkg.Lock.Redis.{Redis, canceled, network, Delivery, answered, failed, call}
use ais_pkg.Lock.Defs.{Lock, LockError, lock_failed, net, nonzero, extend}
use ais_pkg.Lock.AutoExtend.{
  Try, TryResult, lost_callback, on_lock_lost_if_acquired, after_try, try_loop, try_extend,
}

module _ (r : Redis) {F C : Type 0} where
  -- A try that the context cut short: its call was canceled, or the context ended in the backoff.
  abbrev pub CutShort : Try r F C → Type 0
  CutShort t = (t.ctx_done ≡ true) ⊎ ((done : Bool) × (t.delivery ≡ failed done canceled))

  -- The locks that a lock becomes by what others do during some of the first `n` tries.
  pub data Left (tries : ℕ → Try r F C) (n : ℕ) : Lock F C → Lock F C → Type 0 where
    untouched : (l : Lock F C) → Left tries n l l
    acted :
        {l m : Lock F C} (i : ℕ) (s : r.State)
        → i < n
        → Left tries n ((tries i).others l s).0 m
        → Left tries n l m

  -- Some of the first `n` tries got this result from Extend, with a lock that was left by others, at
  -- some state of the server.
  abbrev pub SomeTry :
      (ℕ → Try r F C) → ℕ → ℤ → Lock F C → Lock F C → Result LockError (Unit {0}) → Type 0
  SomeTry tries n ttl l last x =
      Left tries n l last
      × (i : ℕ) × (i < n)
      × (s : r.State) × ((extend r last ttl (tries i).delivery s).0 ≡ x)

  -- What `n` tries come to. `last` is the lock as others left it. It was extended, and nothing is
  -- told; or it is lost, because Extend found another value or because no try's context was done, and
  -- this is told; or a try was cut short, and nothing is told.
  abbrev pub Told : (ℕ → Try r F C) → ℕ → ℤ → Lock F C → TryResult r F C → Type 0
  Told tries n ttl l t =
      ((t.go_on ≡ true) × (t.callback ≡ none) × SomeTry tries n ttl l t.lock (ok tt))
      ⊎ ((t.go_on ≡ false)
          × (last : Lock F C) × (t.lock ≡ record last { acquired = false })
          × (t.callback ≡ lost_callback last)
          × (SomeTry tries n ttl l last (err lock_failed)
              ⊎ (Left tries n l last × ((i : ℕ) → i < n → (tries i).ctx_done ≡ false))))
      ⊎ ((t.go_on ≡ false)
          × (t.callback ≡ none)
          × Left tries n l t.lock
          × (i : ℕ) × (i < n)
          × CutShort (tries i))

  Left-longer :
      (tries : ℕ → Try r F C) (n : ℕ) {l m : Lock F C} → Left tries n l m → Left tries (suc n) l m
  Left-longer tries n (untouched l) = untouched l
  Left-longer tries n (acted i s small more) = acted i s (omega arith) (Left-longer tries n more)

  -- The first of `suc n` tries has the number `n`.
  Left-first :
      (tries : ℕ → Try r F C) (n : ℕ) (l m : Lock F C) (s : r.State)
      → Left tries n ((tries n).others l s).0 m
      → Left tries (suc n) l m
  Left-first tries n l m s more = acted n s (omega arith) (Left-longer tries n more)

  all_longer :
      (tries : ℕ → Try r F C) (n : ℕ)
      → (tries n).ctx_done ≡ false
      → ((i : ℕ) → i < n → (tries i).ctx_done ≡ false)
      → (i : ℕ) → i < suc n
      → (tries i).ctx_done ≡ false
  all_longer tries n last before i small = elim (last_or_before i small) [
    | inl same ↦ ap (λ j. (tries j).ctx_done) same ∙ last
    | inr below ↦ before i below
  ]
    where
      last_or_before : (i : ℕ) → i < suc n → (i ≡ n) ⊎ (i < n)
      last_or_before i small = omega arith

  -- A try before the others, which was not cut short.
  longer :
      (tries : ℕ → Try r F C) (n : ℕ) (ttl : ℤ) (l : Lock F C) (s : r.State) (t : TryResult r F C)
      → (tries n).ctx_done ≡ false
      → Told tries n ttl ((tries n).others l s).0 t
      → Told tries (suc n) ttl l t
  longer tries n ttl l s t on (inl (go, quiet, (left, i, small, u, e))) =
      inl (go, quiet, (Left-first tries n l t.lock s left, i, omega arith, u, e))
  longer tries n ttl l s t on (inr (inl (stop, m, lost, told, inl (left, i, small, u, e)))) =
      inr (inl (stop, m, lost, told, inl (Left-first tries n l m s left, i, omega arith, u, e)))
  longer tries n ttl l s t on (inr (inl (stop, m, lost, told, inr (left, before)))) =
      inr (
        inl
          (stop, m, lost, told, inr (Left-first tries n l m s left, all_longer tries n on before)))
  longer tries n ttl l s t on (inr (inr (stop, quiet, left, i, small, cut))) =
      inr (inr (stop, quiet, Left-first tries n l t.lock s left, i, omega arith, cut))

module _ (r : Redis) where
  nonzero_canceled :
      (d : Delivery) (a : Bool × r.State) (s : r.State)
      → (nonzero r lock_failed (call d a s)).0 ≡ err (net canceled)
      → (done : Bool) × (d ≡ failed done canceled)
  nonzero_canceled answered (true, t) s h = absurd (cc)
  nonzero_canceled answered (false, t) s h = absurd (cc)
  nonzero_canceled (failed true canceled) (b, t) s h = (true, refl)
  nonzero_canceled (failed false canceled) (b, t) s h = (false, refl)
  nonzero_canceled (failed true network) (b, t) s h = absurd (cc)
  nonzero_canceled (failed false network) (b, t) s h = absurd (cc)

module _ (r : Redis) {F C : Type 0} where
  extend_canceled :
      (l : Lock F C) (ttl : ℤ) (d : Delivery) (s : r.State)
      → (extend r l ttl d s).0 ≡ err (net canceled)
      → (done : Bool) × (d ≡ failed done canceled)
  unfolding extend
  extend_canceled l ttl d s h = nonzero_canceled r d _ s h

  after_try-Told :
      (tries : ℕ → Try r F C) (n : ℕ) (ttl : ℤ) (l : Lock F C)
      (again : Lock F C → r.State → TryResult r F C) (s : r.State)
      (x : Result LockError (Unit {0}) × r.State)
      → (extend r l ttl (tries n).delivery s).0 ≡ x.0
      → ((m : Lock F C) (s : r.State) → Told r tries n ttl m (again m s))
      → Told r tries (suc n) ttl l (after_try r (tries n) l again x)
  unfolding on_lock_lost_if_acquired
  after_try-Told tries n ttl l again s (ok u, v) e rest =
      inl (refl, refl, (untouched l, n, omega arith, s, e))
  after_try-Told tries n ttl l again s (err lock_failed, v) e rest =
      inr (inl (refl, l, refl, refl, inl (untouched l, n, omega arith, s, e)))
  after_try-Told tries n ttl l again s (err (net canceled), v) e rest = inr (
      inr (
        refl,
        refl,
        untouched l,
        n,
        omega arith,
        inr (extend_canceled l ttl (tries n).delivery s e),
      ))
  after_try-Told tries n ttl l again s (err _, v) e rest = elim (Bool-cases (tries n).ctx_done) [
    | inl done ↦ rw done (
        inr (
          inr (
            refl,
            refl,
            Left-first r tries n l ((tries n).others l v).0 v (untouched _),
            n,
            omega arith,
            inl done,
          )))
    | inr on ↦ rw on (
        longer r tries n ttl l v (again ((tries n).others l v).0 ((tries n).others l v).1) on
          (rest ((tries n).others l v).0 ((tries n).others l v).1))
  ]

  try_loop-Told :
      (tries : ℕ → Try r F C) (n : ℕ) (ttl : ℤ) (l : Lock F C) (s : r.State)
      → Told r tries n ttl l (try_loop r tries n ttl l s)
  unfolding try_loop on_lock_lost_if_acquired
  try_loop-Told tries zero ttl l s =
      inr (inl (refl, l, refl, refl, inr (untouched l, λ i small. absurd (omega arith))))
  try_loop-Told tries (suc n) ttl l s =
      after_try-Told tries n ttl l (λ l' s'. try_loop r tries n ttl l' s') s
        (extend r l ttl (tries n).delivery s) refl (λ l' s'. try_loop-Told tries n ttl l' s')

  -- However its three tries end, and whatever other operations do to the lock between them, tryExtend
  -- does one of these. It lets the extension go on and runs no callback, after an Extend of the lock
  -- that succeeded. It stops, marks the lock as lost and runs the callback if the lock was held; then
  -- some Extend of the lock gave ErrLockFailed, or no try's context was done in its backoff. Or it
  -- stops, leaves the lock as the others did and runs no callback; then the call of some try was
  -- canceled, or its context was done in its backoff.
  pub try_extend-Told :
      (tries : ℕ → Try r F C) (ttl : ℤ) (l : Lock F C) (s : r.State)
      → Told r tries 3 ttl l (try_extend r tries ttl l s)
  unfolding try_extend
  try_extend-Told tries ttl l s = try_loop-Told tries 3 ttl l s
