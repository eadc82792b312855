-- ===== src/Lock/Steps.antt =====
-- The steps that a lock of cache/redis/lock.go may take on the values of the server's keys.
use ais_pkg.Prelude.{
  ◌≡◌, ◌⊎◌, refl, arith, Bool, true, false, Option, some, none, inl, inr, Bool-cases, if◌then◌else◌,
}
use ais_pkg.Prelude.Text.{Text, text_eq}
use ais_pkg.Prelude.Int.{ℤ, pos, ltb_ℤ}
use ais_pkg.Lock.Redis.{Redis, RedisLaws, Delivery, answered, failed, call, set_nx, set_absent}
use ais_pkg.Lock.Defs.{LockError, value_is, release_script, extend_script, nonzero}
use ais_pkg.Lock.Holding.{value_is_iff}

module _ (r : Redis) (laws : RedisLaws r) (key mine new : Text) where
  -- What a lock may do to the values of all keys in one step: nothing, take a free key with its new
  -- value, or free the key where it has the lock's own value.
  abbrev pub OwnStep : r.State → r.State → Type 0
  OwnStep s t =
      ((j : Text) → r.peek t j ≡ r.peek s j)
      ⊎ ((r.peek s key ≡ none)
          × ((j : Text) → r.peek t j ≡ (if text_eq key j then some new else r.peek s j)))
      ⊎ ((r.peek s key ≡ some mine)
          × ((j : Text) → r.peek t j ≡ (if text_eq key j then none else r.peek s j)))

  -- Steps of the lock, and between them actions of others, which are those of a relation `Other`.
  pub data Trace (Other : r.State → r.State → Type 0) (s : r.State) : r.State → Type 0 where
    still : Trace Other s s
    own : {t u : r.State} → Trace Other s t → OwnStep t u → Trace Other s u
    others : {t u : r.State} → Trace Other s t → Other t u → Trace Other s u

  pub chain :
      {Other : r.State → r.State → Type 0} {s t u : r.State}
      → Trace Other s t
      → Trace Other t u
      → Trace Other s u
  chain first still = first
  chain first (own more step) = own (chain first more) step
  chain first (others more act) = others (chain first more) act

  pub nothing : (s : r.State) → OwnStep s s
  nothing s = inl (λ j. refl)

  set_absent-OwnStep :
      (o : Option Text) (ttl : ℤ) (s : r.State)
      → r.peek s key ≡ o
      → OwnStep s (set_absent r o key new ttl s).1
  set_absent-OwnStep none ttl s free = inr (inl (free, λ j. laws.peek-put key new j ttl s))
  set_absent-OwnStep (some v) ttl s taken = nothing s

  pub set_nx-OwnStep : (ttl : ℤ) (s : r.State) → OwnStep s (set_nx r key new ttl s).1
  unfolding set_nx
  set_nx-OwnStep ttl s = set_absent-OwnStep (r.peek s key) ttl s refl

  pexpire-OwnStep :
      (ms : ℤ) (s : r.State) → r.peek s key ≡ some mine → OwnStep s (r.pexpire key ms s)
  pexpire-OwnStep ms s has = elim (Bool-cases (ltb_ℤ (pos 0) ms)) [
    | inl positive ↦ inl (λ j. laws.peek-pexpire key j ms s (ground arith))
    | inr past ↦ inr (inr (has, λ j. laws.peek-pexpire_past key j ms s (ground arith)))
  ]

  abbrev script : Bool → r.State → r.State → Bool × r.State
  script b s t = if b then (true, t) else (false, s)

  scripted : (b : Bool) (s t : r.State) → (b ≡ true → OwnStep s t) → OwnStep s (script b s t).1
  scripted true s t h = h refl
  scripted false s t h = nothing s

  pub extend_script-OwnStep : (ms : ℤ) (s : r.State) → OwnStep s (extend_script r key mine ms s).1
  unfolding extend_script
  extend_script-OwnStep ms s =
      scripted (value_is (r.peek s key) mine) s (r.pexpire key ms s)
        (λ h. pexpire-OwnStep ms s ((value_is_iff (r.peek s key) mine).0 h))

  pub release_script-OwnStep : (s : r.State) → OwnStep s (release_script r key mine s).1
  unfolding release_script
  release_script-OwnStep s =
      scripted (value_is (r.peek s key) mine) s (r.delete key s)
        (λ h. inr (inr ((value_is_iff (r.peek s key) mine).0 h, λ j. laws.peek-delete key j s)))

  pub nonzero-OwnStep :
      (d : Delivery) (e : LockError) (a : Bool × r.State) (s : r.State)
      → OwnStep s a.1
      → OwnStep s (nonzero r e (call d a s)).1
  nonzero-OwnStep answered e (true, t) s step = step
  nonzero-OwnStep answered e (false, t) s step = step
  nonzero-OwnStep (failed true x) e (b, t) s step = step
  nonzero-OwnStep (failed false x) e (b, t) s step = nothing s

  pub call-OwnStep :
      {A : Type 0} (d : Delivery) (a : A × r.State) (s : r.State)
      → OwnStep s a.1
      → OwnStep s (call d a s).1
  call-OwnStep answered (a, t) s step = step
  call-OwnStep (failed true x) (a, t) s step = step
  call-OwnStep (failed false x) (a, t) s step = nothing s
