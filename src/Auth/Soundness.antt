-- ===== src/Auth/Soundness.antt =====
-- What holds of header values that Verify accepts, and what a refusal leaves unchanged.
use ais_pkg.Prelude.{
  Bool, true, false, ◌≡◌, ◌≢◌, ◌⊎◌, inl, inr, refl, sym, arith, List, [], ◌∷◌, Option, Result, ok,
  err, is_empty, any, Bool-cases,
}
use ais_pkg.Prelude.Text.{Text, text_eq, text_eq→eq}
use ais_pkg.Prelude.Int.{ℤ, pos, ◌+ℤ◌, ◌-ℤ◌, ◌≤ℤ◌}
use ais_pkg.Auth.Types.{
  UserInfo, AuthHeaderValues, AuthContext, AuthHeaderVerifierConfig, AuthError,
}
use ais_pkg.Auth.Nonces.{NonceStore}
use ais_pkg.Auth.Signature.{sign_auth_header, secure_compare}
use ais_pkg.Auth.Signer.{Codec}
use ais_pkg.Auth.Verifier.{
  nanoseconds, secret_for_issuer, is_issuer_allowed, check_values, lacks_user, checked_user,
  check_nonce, dedup, after_checks, verified_context, verify,
}

-- Membership in a list of texts, stated by the list.
abbrev pub Member : Text → List Text → Type 0
Member t [] = ⊥
Member t (s ∷ ss) = (t ≡ s) ⊎ Member t ss

any-Member : (t : Text) (ss : List Text) → any (text_eq t) ss ≡ true → Member t ss
any-Member t [] h = ground arith
any-Member t (s ∷ ss) h = elim (Bool-cases (text_eq t s)) [
  | inl e ↦ inl (text_eq→eq t s e)
  | inr e ↦ inr (any-Member t ss (ground arith))
]

pub allowed-Member :
    (cfg : AuthHeaderVerifierConfig) (issuer : Text)
    → is_issuer_allowed cfg issuer ≡ true
    → Member issuer cfg.allowed_issuers
unfolding is_issuer_allowed
allowed-Member cfg issuer h = any-Member issuer cfg.allowed_issuers (ground arith)

-- The header values carry the signature of an allowed issuer's secret, and are in their window of
-- validity at the time `now`.
pub record IsGenuine (mac : Text → Text → Text) (cfg : AuthHeaderVerifierConfig) (now : ℤ)
    (v : AuthHeaderValues) : Type 0 where
  pub issuer_allowed : Member v.issuer cfg.allowed_issuers
  pub secret_set : secret_for_issuer cfg v.issuer ≢ []
  pub signed : v.signature ≡ sign_auth_header mac (secret_for_issuer cfg v.issuer) v
  pub fresh : (cfg.max_age ≤ℤ pos 0) ⊎ (now -ℤ nanoseconds v.timestamp ≤ℤ cfg.max_age)
  pub begun : nanoseconds v.timestamp ≤ℤ now +ℤ cfg.allowed_clock_skew

not_empty : (t : Text) → is_empty t ≡ false → t ≢ []
not_empty [] h = cc
not_empty (b ∷ t) h = cc

pub check_values-IsGenuine :
    (mac : Text → Text → Text) (cfg : AuthHeaderVerifierConfig) (now : ℤ) (v : AuthHeaderValues)
    → check_values mac cfg now v ≡ ok tt
    → IsGenuine mac cfg now v
unfolding check_values secure_compare
check_values-IsGenuine mac cfg now v h = record {
  issuer_allowed = allowed-Member cfg v.issuer (ground arith);
  secret_set = not_empty (secret_for_issuer cfg v.issuer) (ground arith);
  signed = sym (
      text_eq→eq (sign_auth_header mac (secret_for_issuer cfg v.issuer) v) v.signature
        (ground arith));
  fresh = ground arith;
  begun = ground arith;
}

-- The context that Verify returns repeats the header values, and has a user where one is required.
pub record Describes (cfg : AuthHeaderVerifierConfig) (v : AuthHeaderValues) (ctx : AuthContext)
    : Type 0 where
  pub version : ctx.version ≡ v.version
  pub issuer : ctx.issuer ≡ v.issuer
  pub issued_at : ctx.issued_at ≡ nanoseconds v.timestamp
  pub nonce : ctx.nonce ≡ v.nonce
  pub user_value : ctx.user_value ≡ v.user
  pub user_known : (cfg.allow_empty_user ≡ true) ⊎ (lacks_user ctx.user ≡ false)

checked_user-Describes :
    (cfg : AuthHeaderVerifierConfig) (v : AuthHeaderValues) (r : Result AuthError (Option UserInfo))
    (ctx : AuthContext)
    → checked_user cfg v r ≡ ok ctx
    → Describes cfg v ctx
checked_user-Describes cfg v (err e) ctx h = cc
checked_user-Describes cfg v (ok user) ctx h = record {
  version = ground arith;
  issuer = ground arith;
  issued_at = ground arith;
  nonce = ground arith;
  user_value = ground arith;
  user_known = ground arith;
}

-- When the checks pass and the nonce is new, the result is the context.
pub after_checks_pass :
    {S : Type 0} (s : S) (c : Result AuthError (Unit {0})) (d : Bool × S)
    (r : Result AuthError AuthContext)
    → c ≡ ok tt
    → d.0 ≡ false
    → (after_checks c (dedup d r) s).0 ≡ r
after_checks_pass s (err e) d r h k = cc
after_checks_pass s (ok u) (true, s') r h k = cc
after_checks_pass s (ok u) (false, s') r h k = refl

module _ {S : Type 0} (mac : Text → Text → Text) (codec : Codec) (cfg : AuthHeaderVerifierConfig)
    (store : Option (NonceStore S)) (now wall : ℤ) (v : AuthHeaderValues) (s : S) where
  after_checks-eq-ok :
      (c : Result AuthError (Unit {0})) (d : Bool × S) (r : Result AuthError AuthContext)
      (ctx : AuthContext)
      → (after_checks c (dedup d r) s).0 ≡ ok ctx
      → (c ≡ ok tt) × (d.0 ≡ false) × (r ≡ ok ctx) × ((after_checks c (dedup d r) s).1 ≡ d.1)
  after_checks-eq-ok (err e) d r ctx h = cc
  after_checks-eq-ok (ok tt) (true, s') r ctx h = cc
  after_checks-eq-ok (ok tt) (false, s') r ctx h = (refl, refl, h, refl)

  -- An accepted request passed the checks, and its nonce was not seen; the store is as `check_nonce`
  -- left it.
  pub verify-eq-ok :
      (ctx : AuthContext)
      → (verify mac codec cfg store now wall v s).0 ≡ ok ctx
      → (check_values mac cfg now v ≡ ok tt)
        × ((check_nonce cfg store wall v s).0 ≡ false)
        × (verified_context codec cfg v ≡ ok ctx)
        × ((verify mac codec cfg store now wall v s).1 ≡ (check_nonce cfg store wall v s).1)
  unfolding verify
  verify-eq-ok ctx h =
      after_checks-eq-ok (check_values mac cfg now v) (check_nonce cfg store wall v s)
        (verified_context codec cfg v) ctx h

  -- If Verify accepts header values, their issuer is allowed, they carry the signature under the
  -- issuer's secret, which is not empty, their timestamp is not older than the maximal age (if that
  -- is positive) nor later than the clock and the skew, and the context repeats the values, with a
  -- user unless the configuration allows none.
  pub verify_sound :
      (ctx : AuthContext)
      → (verify mac codec cfg store now wall v s).0 ≡ ok ctx
      → IsGenuine mac cfg now v × Describes cfg v ctx
  unfolding verified_context
  verify_sound ctx h =
      let (checked, unseen, context, after) = verify-eq-ok ctx h in
      (check_values-IsGenuine mac cfg now v checked, checked_user-Describes cfg v _ ctx context)

  after_checks-err :
      (c : Result AuthError (Unit {0})) (rest : Result AuthError AuthContext × S)
      → c ≢ ok tt
      → (e : AuthError) × (after_checks c rest s ≡ (err e, s))
  after_checks-err (err e) rest h = (e, refl)
  after_checks-err (ok tt) rest h = absurd (h refl)

  -- Header values with another signature than the one under their issuer's secret are refused,
  -- and the nonce store is left as it was.
  pub forged_values_refused :
      v.signature ≢ sign_auth_header mac (secret_for_issuer cfg v.issuer) v
      → (e : AuthError) × (verify mac codec cfg store now wall v s ≡ (err e, s))
  unfolding verify
  forged_values_refused forged =
      after_checks-err (check_values mac cfg now v) _
        (λ passed. forged (check_values-IsGenuine mac cfg now v passed).signed)
