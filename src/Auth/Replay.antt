-- ===== src/Auth/Replay.antt =====
-- Replays: what the in-memory nonce store remembers, over any history of requests, and the requests
-- that it refuses.
use ais_pkg.Prelude.{
  Bool, true, false, ◌≡◌, ◌≢◌, ◌⊎◌, sym, ap, ◌∙◌, arith, List, [], ◌∷◌, some, Result, ok, err, All,
}
use ais_pkg.Prelude.Text.{Text, text_eq_iff, text_eq_refl}
use ais_pkg.Prelude.Int.{ℤ, pos, ◌+ℤ◌, ◌-ℤ◌, ◌≤ℤ◌, ◌<ℤ◌, int_laws}
use ais_pkg.Prelude.Maps.{lookup, keep, lookup-insert, lookup-keep}
use ais_pkg.Auth.Types.{AuthHeaderValues, AuthContext, AuthHeaderVerifierConfig, AuthError}
use ais_pkg.Auth.Nonces.{Entries, mem_nonce_store, seen, unexpired}
use ais_pkg.Auth.Signer.{Codec}
use ais_pkg.Auth.Verifier.{
  nanoseconds, check_values, check_nonce, verified_context, verify, after_checks, dedup,
}
use ais_pkg.Auth.Soundness.{verify-eq-ok, check_values-IsGenuine, after_checks_pass}

-- A nonce that the store did not know is recorded until its ttl has passed.
pub seen_new :
    (now : ℤ) (nonce : Text) (ttl : ℤ) (entries : Entries)
    → (seen now nonce ttl entries).0 ≡ false
    → lookup nonce (seen now nonce ttl entries).1 ≡ some (now +ℤ ttl)
unfolding seen
seen_new now nonce ttl entries h = ground (
  arith,
  lookup-insert nonce nonce (now +ℤ ttl) (keep (unexpired now) entries),
  text_eq_refl nonce,
)

-- Until then it is reported as seen.
pub seen_known :
    (now : ℤ) (nonce : Text) (ttl exp : ℤ) (entries : Entries)
    → lookup nonce entries ≡ some exp
    → now <ℤ exp
    → (seen now nonce ttl entries).0 ≡ true
unfolding seen
seen_known now nonce ttl exp entries h lt =
    ground (arith, lookup-keep (unexpired now) nonce exp entries)

-- And no other call takes the record away.
pub seen_keeps :
    (now : ℤ) (nonce other : Text) (ttl exp : ℤ) (entries : Entries)
    → lookup nonce entries ≡ some exp
    → now <ℤ exp
    → lookup nonce (seen now other ttl entries).1 ≡ some exp
unfolding seen
seen_keeps now nonce other ttl exp entries h lt = ground (
  arith,
  lookup-keep (unexpired now) nonce exp entries,
  lookup-insert other nonce (now +ℤ ttl) (keep (unexpired now) entries),
  text_eq_iff other nonce,
)

-- A request at a verifier: the time of its clock, the wall clock's time, the header values.
pub record Request : Type 0 where
  pub now : ℤ
  pub wall : ℤ
  pub values : AuthHeaderValues

module _ (mac : Text → Text → Text) (codec : Codec) (cfg : AuthHeaderVerifierConfig) where
  abbrev pub verify_request : Request → Entries → Result AuthError AuthContext × Entries
  verify_request r = verify mac codec cfg (some mem_nonce_store) r.now r.wall r.values

  -- The store after requests in turn, accepted or not.
  unfoldable pub after_requests : List Request → Entries → Entries
  after_requests [] entries = entries
  after_requests (r ∷ rs) entries = after_requests rs (verify_request r entries).1

  abbrev pub window : ℤ
  window = cfg.max_age +ℤ cfg.allowed_clock_skew

  after_checks-keeps :
      (nonce : Text) (exp : ℤ) (entries : Entries) (c : Result AuthError (Unit {0}))
      (d : Bool × Entries) (r : Result AuthError AuthContext)
      → lookup nonce entries ≡ some exp
      → lookup nonce d.1 ≡ some exp
      → lookup nonce (after_checks c (dedup d r) entries).1 ≡ some exp
  after_checks-keeps nonce exp entries (err e) d r h k = h
  after_checks-keeps nonce exp entries (ok u) (true, s) r h k = k
  after_checks-keeps nonce exp entries (ok u) (false, s) r h k = k

  check_nonce-keeps :
      (nonce : Text) (exp : ℤ) (r : Request) (entries : Entries)
      → lookup nonce entries ≡ some exp
      → r.wall <ℤ exp
      → lookup nonce (check_nonce cfg (some mem_nonce_store) r.wall r.values entries).1 ≡ some exp
  unfolding check_nonce
  check_nonce-keeps nonce exp r entries h lt =
      ground (arith, seen_keeps r.wall nonce r.values.nonce window exp entries)

  verify-keeps :
      (nonce : Text) (exp : ℤ) (r : Request) (entries : Entries)
      → lookup nonce entries ≡ some exp
      → r.wall <ℤ exp
      → lookup nonce (verify_request r entries).1 ≡ some exp
  unfolding verify
  verify-keeps nonce exp r entries h lt =
      after_checks-keeps nonce exp entries _
        (check_nonce cfg (some mem_nonce_store) r.wall r.values entries)
        (verified_context codec cfg r.values) h (check_nonce-keeps nonce exp r entries h lt)

  after_requests-keeps :
      (nonce : Text) (exp : ℤ) (rs : List Request) (entries : Entries)
      → All (λ r. r.wall <ℤ exp) rs
      → lookup nonce entries ≡ some exp
      → lookup nonce (after_requests rs entries) ≡ some exp
  unfolding after_requests
  after_requests-keeps nonce exp [] entries early h = h
  after_requests-keeps nonce exp (r ∷ rs) entries early h =
      after_requests-keeps nonce exp rs _ early.1 (verify-keeps nonce exp r entries h early.0)

  check_nonce_records :
      (r : Request) (entries : Entries)
      → r.values.nonce ≢ []
      → (check_nonce cfg (some mem_nonce_store) r.wall r.values entries).0 ≡ false
      → lookup r.values.nonce (check_nonce cfg (some mem_nonce_store) r.wall r.values entries).1
        ≡ some (r.wall +ℤ window)
  unfolding check_nonce
  check_nonce_records r entries ne h = ground (arith, seen_new r.wall r.values.nonce window entries)

  check_nonce_known :
      (r : Request) (exp : ℤ) (entries : Entries)
      → r.values.nonce ≢ []
      → lookup r.values.nonce entries ≡ some exp
      → r.wall <ℤ exp
      → (check_nonce cfg (some mem_nonce_store) r.wall r.values entries).0 ≡ true
  unfolding check_nonce
  check_nonce_known r exp entries ne h lt =
      ground (arith, seen_known r.wall r.values.nonce window exp entries)

  -- For a verifier with the in-memory nonce store: after a request with a nonce that is not empty was
  -- accepted, and after any further requests, no request with that nonce is accepted, as long as all
  -- of these come before the wall clock has passed the maximal age and the skew.
  pub replay_refused :
      (first again : Request) (between : List Request) (entries : Entries) (ctx ctx' : AuthContext)
      → (verify_request first entries).0 ≡ ok ctx
      → first.values.nonce ≢ []
      → again.values.nonce ≡ first.values.nonce
      → All (λ r. r.wall <ℤ first.wall +ℤ window) between
      → again.wall <ℤ first.wall +ℤ window
      → (verify_request again (after_requests between (verify_request first entries).1)).0 ≢ ok ctx'
  replay_refused first again between entries ctx ctx' accepted ne same early soon replayed =
      let (_, unseen, _, after) =
        verify-eq-ok mac codec cfg (some mem_nonce_store) first.now first.wall first.values entries
          ctx accepted in
      let exp = first.wall +ℤ window in
      let last = after_requests between (verify_request first entries).1 in
      let recorded : lookup first.values.nonce (verify_request first entries).1 ≡ some exp =
        rw after (check_nonce_records first entries ne unseen) in
      let kept = after_requests-keeps first.values.nonce exp between _ early recorded in
      let (_, unseen_again, _, _) =
        verify-eq-ok mac codec cfg (some mem_nonce_store) again.now again.wall again.values last
          ctx' replayed in
      cc (
        check_nonce_known again exp last (λ e. ne (sym same ∙ e)) (rw same kept) soon,
        unseen_again,
      )

  too_late :
      (now again issued_at : ℤ)
      → issued_at ≤ℤ now +ℤ cfg.allowed_clock_skew
      → pos 0 <ℤ cfg.max_age
      → (cfg.max_age ≤ℤ pos 0) ⊎ (again -ℤ issued_at ≤ℤ cfg.max_age)
      → now +ℤ window <ℤ again
      → ⊥
  too_late now again issued_at begun aged fresh late = omega int_laws

  -- Header values with the timestamp of values that were accepted are refused once the verifier's
  -- clock has passed the maximal age and the skew, counted from its time at the acceptance. The
  -- maximal age is positive.
  pub expired_refused :
      (first again : Request) (entries later : Entries) (ctx ctx' : AuthContext)
      → (verify_request first entries).0 ≡ ok ctx
      → pos 0 <ℤ cfg.max_age
      → again.values.timestamp ≡ first.values.timestamp
      → first.now +ℤ window <ℤ again.now
      → (verify_request again later).0 ≢ ok ctx'
  expired_refused first again entries later ctx ctx' accepted aged same late replayed =
      let (first_checked, _, _, _) =
        verify-eq-ok mac codec cfg (some mem_nonce_store) first.now first.wall first.values entries
          ctx accepted in
      let (again_checked, _, _, _) =
        verify-eq-ok mac codec cfg (some mem_nonce_store) again.now again.wall again.values later
          ctx' replayed in
      let begun = (check_values-IsGenuine mac cfg first.now first.values first_checked).begun in
      let fresh = (check_values-IsGenuine mac cfg again.now again.values again_checked).fresh in
      too_late first.now again.now (nanoseconds first.values.timestamp) begun aged
        (rw (ap nanoseconds same) at fresh) late

  check_values_later :
      (now now' : ℤ) (v : AuthHeaderValues)
      → check_values mac cfg now v ≡ ok tt
      → now' -ℤ nanoseconds v.timestamp ≤ℤ cfg.max_age
      → nanoseconds v.timestamp ≤ℤ now' +ℤ cfg.allowed_clock_skew
      → check_values mac cfg now' v ≡ ok tt
  unfolding check_values
  check_values_later now now' v h fresh begun = ground arith

  check_nonce_expired :
      (wall : ℤ) (v : AuthHeaderValues) (entries : Entries)
      → v.nonce ≢ []
      → lookup v.nonce entries ≡ some wall
      → (check_nonce cfg (some mem_nonce_store) wall v entries).0 ≡ false
  unfolding check_nonce seen
  check_nonce_expired wall v entries ne h =
      ground (arith, lookup-keep (unexpired wall) v.nonce wall entries)

  in_window_end :
      (now issued_at : ℤ)
      → issued_at ≡ now +ℤ cfg.allowed_clock_skew
      → pos 0 ≤ℤ window
      → (now +ℤ window -ℤ issued_at ≤ℤ cfg.max_age)
        × (issued_at ≤ℤ now +ℤ window +ℤ cfg.allowed_clock_skew)
  in_window_end now issued_at e h = rw e (omega int_laws, omega int_laws)

  -- Header values with a nonce that are issued ahead by the whole clock skew are accepted twice,
  -- if the verifier and its store read the same clock and the window is not negative: once, and
  -- again at the instant at which the maximal age and the skew have passed, when their nonce is no
  -- longer live and their age is not yet above the maximum.
  pub replay_at_window_end :
      (now : ℤ) (v : AuthHeaderValues) (entries : Entries) (ctx : AuthContext)
      → (verify mac codec cfg (some mem_nonce_store) now now v entries).0 ≡ ok ctx
      → v.nonce ≢ []
      → nanoseconds v.timestamp ≡ now +ℤ cfg.allowed_clock_skew
      → pos 0 ≤ℤ window
      → (verify mac codec cfg
          (some mem_nonce_store)
          (now +ℤ window)
          (now +ℤ window)
          v
          (verify mac codec cfg (some mem_nonce_store) now now v entries).1).0
        ≡ ok ctx
  unfolding verify
  replay_at_window_end now v entries ctx accepted ne ahead pos_window =
      let (checked, unseen, context, after) =
        verify-eq-ok mac codec cfg (some mem_nonce_store) now now v entries ctx accepted in
      let first : Request = record { now = now; wall = now; values = v } in
      let (fresh, begun) = in_window_end now (nanoseconds v.timestamp) ahead pos_window in
      let recorded : lookup v.nonce
            (verify mac codec cfg (some mem_nonce_store) now now v entries).1
          ≡ some (now +ℤ window) =
        rw after (check_nonce_records first entries ne unseen) in
      after_checks_pass _ _ _ _ (check_values_later now (now +ℤ window) v checked fresh begun)
        (check_nonce_expired (now +ℤ window) v _ ne recorded)
      ∙ context
