-- ===== src/Idempotency/Laws.antt =====
-- At most one caller processes a key, and what the modes promise when the server fails.
use ais_pkg.Prelude.{
  ◌≡◌, ◌≢◌, refl, ap, ◌∙◌, arith, Bool, true, false, not, [], ◌∷◌, Option, some, none, Result, ok,
  if◌then◌else◌,
}
use ais_pkg.Prelude.Text.{Text, text_eq_refl}
use ais_pkg.Lock.Redis.{Redis, RedisLaws, Delivery, answered, failed, call, set_nx, set_absent}
use ais_pkg.Idempotency.Defs.{
  Checker, CheckError, not_available, is_disabled, is_required, full_key, degraded, answer_of,
  present, check, mark, check_and_mark,
}

-- The checker asks the server.
pub record IsActive (c : Checker) : Type 0 where
  pub enabled : is_disabled c ≡ false
  pub available : c.available ≡ true

module _ (r : Redis) (laws : RedisLaws r) (c : Checker) (key : Text) where
  -- Whether the server has the key.
  abbrev pub marked : r.State → Bool
  marked s = present r (r.peek s (full_key c key))

  present-absent :
      (o : Option Text) (value : Text) (s : r.State)
      → r.peek s (full_key c key) ≡ o
      → ((set_absent r o (full_key c key) value c.ttl s).0 ≡ not (present r o))
        × (marked (set_absent r o (full_key c key) value c.ttl s).1 ≡ true)
  present-absent none value s e = (
    refl,
    rw
        (
          laws.peek-put (full_key c key) value (full_key c key) c.ttl s,
          text_eq_refl (full_key c key),
        )
        refl,
  )
  present-absent (some w) value s e = (refl, rw e refl)

  set_nx-marked :
      (value : Text) (s : r.State)
      → ((set_nx r (full_key c key) value c.ttl s).0 ≡ not (marked s))
        × (marked (set_nx r (full_key c key) value c.ttl s).1 ≡ true)
  unfolding set_nx
  set_nx-marked value s = present-absent (r.peek s (full_key c key)) value s refl

  not-not : (b : Bool) → not (not b) ≡ b
  not-not true = refl
  not-not false = refl

  -- An answered CheckAndMark says whether the key was there, and leaves it there.
  check_and_mark-answered :
      (s : r.State)
      → IsActive c
      → ((check_and_mark r c answered key s).0 ≡ ok (marked s))
        × (marked (check_and_mark r c answered key s).1 ≡ true)
  unfolding check_and_mark
  check_and_mark-answered s active =
      let (was, now) = set_nx-marked (b'1' ∷ []) s in
      rw (active.enabled, active.available) (ap ok (ap not was ∙ not-not (marked s)), now)

  -- Once a CheckAndMark has been answered to a checker that is enabled and has a client, any later
  -- one of the same key, with the key still on the server, answers that it was processed: of all
  -- callers whose calls are answered while the key lasts, one at most is told to go on.
  pub check_and_mark_once :
      (s : r.State) (others : r.State → r.State)
      → IsActive c
      → marked (others (check_and_mark r c answered key s).1)
        ≡ marked (check_and_mark r c answered key s).1
      → ((check_and_mark r c answered key s).0 ≡ ok (marked s))
        × ((check_and_mark r c answered key (others (check_and_mark r c answered key s).1)).0
            ≡ ok true)
  check_and_mark_once s others active lasts =
      let (first, there) = check_and_mark-answered s active in
      (
        first,
        (check_and_mark-answered (others (check_and_mark r c answered key s).1) active).0
            ∙ ap ok (lasts ∙ there),
      )

  -- A key that was marked is found by Check.
  pub mark-check :
      (s : r.State)
      → IsActive c
      → ((mark r c answered key s).0 ≡ ok tt)
        × (check r c answered key (mark r c answered key s).1 ≡ ok true)
  unfolding mark check
  mark-check s active =
      rw
        (
          active.enabled,
          active.available,
          laws.peek-put (full_key c key) (b'1' ∷ []) (full_key c key) c.ttl s,
          text_eq_refl (full_key c key),
        )
        (refl, refl)

  answer_of-required :
      (f : Bool → Bool) (d : Delivery) (a : Bool × r.State) (s : r.State) (b : Bool)
      → is_required c ≡ true
      → answer_of c f (call d a s).0 ≡ ok b
      → (d ≡ answered) × (b ≡ f a.0)
  answer_of-required f answered (x, s') s b required h = (refl, cc)
  answer_of-required f (failed true e) (x, s') s b required h = absurd (ground (arith, required))
  answer_of-required f (failed false e) (x, s') s b required h = absurd (ground (arith, required))

  degraded-required : (e : CheckError) (b : Bool) → is_required c ≡ true → degraded c e ≢ ok b
  degraded-required e b required h = cc (rw required at h)

  check-if :
      (a : Bool) (x : Result CheckError Bool) (b : Bool)
      → is_required c ≡ true
      → (if not a then degraded c not_available else x) ≡ ok b
      → x ≡ ok b
  check-if true x b required h = h
  check-if false x b required h = absurd (degraded-required not_available b required h)

  -- In the required mode Check never guesses: when it returns no error, the call was answered, and it
  -- returns whether the key is on the server.
  pub check-required :
      (d : Delivery) (s : r.State) (b : Bool)
      → is_required c ≡ true
      → is_disabled c ≡ false
      → check r c d key s ≡ ok b
      → (d ≡ answered) × (b ≡ marked s)
  unfolding check
  check-required d s b required enabled h =
      answer_of-required (λ x. x) d (marked s, s) s b required
        (check-if c.available (answer_of c (λ x. x) (call d (marked s, s) s).0) b required
          (rw enabled at h))

  mark-if :
      (a : Bool) (x : Result CheckError Bool × r.State) (b : Bool) (s : r.State)
      → is_required c ≡ true
      → (if not a then (degraded c not_available, s) else x).0 ≡ ok b
      → x.0 ≡ ok b
  mark-if true x b s required h = h
  mark-if false x b s required h = absurd (degraded-required not_available b required h)

  -- In the required mode CheckAndMark never guesses: when it returns no error, the call was answered,
  -- and it returns whether the key was on the server before.
  pub check_and_mark-required :
      (d : Delivery) (s : r.State) (b : Bool)
      → is_required c ≡ true
      → is_disabled c ≡ false
      → (check_and_mark r c d key s).0 ≡ ok b
      → (d ≡ answered) × (b ≡ marked s)
  unfolding check_and_mark
  check_and_mark-required d s b required enabled h =
      let sent = call d (set_nx r (full_key c key) (b'1' ∷ []) c.ttl s) s in
      let (p, q) =
        answer_of-required not d (set_nx r (full_key c key) (b'1' ∷ []) c.ttl s) s b required
          (mark-if c.available (answer_of c not sent.0, sent.1) b s required (rw enabled at h)) in
      (p, q ∙ ap not (set_nx-marked (b'1' ∷ []) s).0 ∙ not-not (marked s))
