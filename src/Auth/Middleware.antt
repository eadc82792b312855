-- ===== src/Auth/Middleware.antt =====
-- middleware/auth_header.go: the handler of AuthHeaderVerifier.Authenticate.
use ais_pkg.Prelude.{
  true, ◌&&◌, ◌≡◌, refl, arith, Option, some, none, Result, ok, err, is_empty, if◌then◌else◌,
}
use ais_pkg.Prelude.Text.{Text, codes}
use ais_pkg.Prelude.Int.{ℤ}
use ais_pkg.Auth.Types.{AuthHeaderValues, AuthContext, AuthHeaderVerifierConfig, AuthError}
use ais_pkg.Auth.Nonces.{NonceStore}
use ais_pkg.Auth.Signer.{Codec}
use ais_pkg.Auth.Headers.{parse_auth_header_values}
use ais_pkg.Auth.Verifier.{verify}
use ais_pkg.Auth.Soundness.{IsGenuine, verify_sound}
use ais_pkg.Response.Defs.{Sent, internal_error, unauthorized}

-- What a handler does: it calls the next one, with the verified context in the request's locals or
-- without, or it answers the request.
pub data Handled (D : Type 0) : Type 0 where
  next : Option AuthContext → Handled D
  answered : Sent D → Handled D

module _ {D S : Type 0} (mac : Text → Text → Text) (codec : Codec)
    (message : AuthError → Text) where
  abbrev handled : Result AuthError AuthContext × S → Handled D × S
  handled (err e, s) = (answered (unauthorized (message e)), s)
  handled (ok ctx, s) = (next (some ctx), s)

  abbrev with_values :
      AuthHeaderVerifierConfig
      → Option (NonceStore S)
      → ℤ
      → ℤ
      → Result AuthError AuthHeaderValues
      → S
      → Handled D × S
  with_values cfg store now wall (err e) s = (answered (unauthorized (message e)), s)
  with_values cfg store now wall (ok values) s =
      handled (verify mac codec cfg store now wall values s)

  -- AuthHeaderVerifier.Authenticate, for a request whose headers `get_value` reads. `message` stands
  -- for the texts of the errors.
  unfoldable pub authenticate :
      AuthHeaderVerifierConfig → Option (NonceStore S) → ℤ → ℤ → (Text → Text) → S → Handled D × S
  authenticate cfg store now wall get_value s =
      if cfg.enabled
      then (if is_empty cfg.secret && is_empty cfg.secrets
          then (answered (internal_error (codes "auth header misconfigured")), s)
          else with_values cfg store now wall (parse_auth_header_values get_value) s)
      else (next none, s)

  handled-next :
      (r : Result AuthError AuthContext × S) (o : Option AuthContext)
      → (handled r).0 ≡ next o
      → (ctx : AuthContext) × (o ≡ some ctx) × (r.0 ≡ ok ctx)
  handled-next (err e, s) o h = cc
  handled-next (ok ctx, s) o h = (ctx, cc, refl)

  with_values-next :
      (cfg : AuthHeaderVerifierConfig) (store : Option (NonceStore S)) (now wall : ℤ)
      (r : Result AuthError AuthHeaderValues) (s : S) (o : Option AuthContext)
      → (with_values cfg store now wall r s).0 ≡ next o
      → (v : AuthHeaderValues) × (ctx : AuthContext) × (r ≡ ok v)
        × (o ≡ some ctx)
        × ((verify mac codec cfg store now wall v s).0 ≡ ok ctx)
  with_values-next cfg store now wall (err e) s o h = cc
  with_values-next cfg store now wall (ok v) s o h =
      let (ctx, p, q) = handled-next (verify mac codec cfg store now wall v s) o h in
      (v, ctx, refl, p, q)

  -- An enabled verifier passes a request on only with a context, and only if its headers parse and
  -- their values are genuine: from an allowed issuer, signed with its secret, and in their window.
  pub authenticate_guards :
      (cfg : AuthHeaderVerifierConfig) (store : Option (NonceStore S)) (now wall : ℤ)
      (get_value : Text → Text) (s : S) (o : Option AuthContext)
      → cfg.enabled ≡ true
      → (authenticate cfg store now wall get_value s).0 ≡ next o
      → (v : AuthHeaderValues) × (ctx : AuthContext) × (parse_auth_header_values get_value ≡ ok v)
        × (o ≡ some ctx)
        × IsGenuine mac cfg now v
  unfolding authenticate
  authenticate_guards cfg store now wall get_value s o on h =
      let (v, ctx, parsed, found, verified) =
        with_values-next cfg store now wall (parse_auth_header_values get_value) s o
          (ground arith) in
      (v, ctx, parsed, found, (verify_sound mac codec cfg store now wall v s ctx verified).0)
