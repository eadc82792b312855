-- ===== src/Auth/Verifier.antt =====
-- middleware/auth_header.go: AuthHeaderVerifier.Verify and the checks that it makes.
use ais_pkg.Prelude.{
  ◌+◌, ◌-◌, ◌*◌, Bool, true, false, not, ◌&&◌, ◌||◌, [], Option, some, none, Result, ok, err, guard,
  ◌>>◌, is_empty, any, if◌then◌else◌,
}
use ais_pkg.Prelude.Text.{Text, text_eq}
use ais_pkg.Prelude.Int.{ℤ, pos, negsuc, ◌+ℤ◌, ◌-ℤ◌, ltb_ℤ, eqb_ℤ}
use ais_pkg.Prelude.Maps.{lookup}
use ais_pkg.Auth.Types.{
  UserInfo, AuthHeaderValues, AuthContext, AuthHeaderVerifierConfig, AuthError, header_missing,
  invalid_version, missing_nonce, missing_user, invalid_user, invalid_sign, header_expired,
  not_yet_valid, missing_secret, issuer_not_allowed, replay_nonce,
}
use ais_pkg.Auth.Nonces.{NonceStore}
use ais_pkg.Auth.Signature.{sign_auth_header, secure_compare}
use ais_pkg.Auth.Signer.{Codec, decode_user_info}

-- time.Unix(ts, 0), in nanoseconds
abbrev pub nanoseconds : ℤ → ℤ
nanoseconds (pos n) = pos (n * 1_000_000_000)
nanoseconds (negsuc n) = negsuc ((n + 1) * 1_000_000_000 - 1)

abbrev pub or_empty : Option Text → Text
or_empty none = []
or_empty (some secret) = secret

-- secretForIssuer
unfoldable pub secret_for_issuer : AuthHeaderVerifierConfig → Text → Text
secret_for_issuer cfg issuer =
    if is_empty issuer
    then []
    else if not (is_empty cfg.secrets)
    then or_empty (lookup issuer cfg.secrets)
    else cfg.secret

-- isIssuerAllowed
unfoldable pub is_issuer_allowed : AuthHeaderVerifierConfig → Text → Bool
is_issuer_allowed cfg issuer =
    if is_empty issuer
    then false
    else if is_empty cfg.allowed_issuers
    then false
    else any (text_eq issuer) cfg.allowed_issuers

-- The part of Verify up to the nonce store, at the verifier's time `now`.
unfoldable pub check_values :
    (Text → Text → Text)
    → AuthHeaderVerifierConfig
    → ℤ
    → AuthHeaderValues
    → Result AuthError (Unit {0})
check_values mac cfg now values = do
  guard
      (not (
        is_empty values.version
        || is_empty values.issuer
        || eqb_ℤ values.timestamp (pos 0)
        || is_empty values.signature))
      header_missing
  guard (is_empty cfg.version || text_eq values.version cfg.version) invalid_version
  guard (is_issuer_allowed cfg values.issuer) issuer_not_allowed
  guard (cfg.allow_missing_nonce || not (is_empty values.nonce)) missing_nonce
  let secret = secret_for_issuer cfg values.issuer
  guard (not (is_empty secret)) missing_secret
  guard (secure_compare (sign_auth_header mac secret values) values.signature) invalid_sign
  let issued_at = nanoseconds values.timestamp
  guard (not (ltb_ℤ (pos 0) cfg.max_age && ltb_ℤ cfg.max_age (now -ℤ issued_at))) header_expired
  guard (not (ltb_ℤ (now +ℤ cfg.allowed_clock_skew) issued_at)) not_yet_valid

-- user == nil || user.UserID == ""
abbrev pub lacks_user : Option UserInfo → Bool
lacks_user none = true
lacks_user (some user) = is_empty user.user_id

abbrev pub checked_user :
    AuthHeaderVerifierConfig
    → AuthHeaderValues
    → Result AuthError (Option UserInfo)
    → Result AuthError AuthContext
checked_user cfg values (err e) = err invalid_user
checked_user cfg values (ok user) = do
  guard (cfg.allow_empty_user || not (lacks_user user)) missing_user
  ok (record {
    version = values.version;
    issuer = values.issuer;
    issued_at = nanoseconds values.timestamp;
    nonce = values.nonce;
    user = user;
    user_value = values.user;
  })

-- The part of Verify after the nonce store.
unfoldable pub verified_context :
    Codec → AuthHeaderVerifierConfig → AuthHeaderValues → Result AuthError AuthContext
verified_context codec cfg values = checked_user cfg values (decode_user_info codec values.user)

module _ {S : Type 0} where
  -- The nonce deduplication of Verify, at the wall clock's time `wall`.
  unfoldable pub check_nonce :
      AuthHeaderVerifierConfig → Option (NonceStore S) → ℤ → AuthHeaderValues → S → Bool × S
  check_nonce cfg none wall values s = (false, s)
  check_nonce cfg (some store) wall values s =
      if is_empty values.nonce
      then (false, s)
      else store.seen wall values.nonce (cfg.max_age +ℤ cfg.allowed_clock_skew) s

  abbrev pub dedup : Bool × S → Result AuthError AuthContext → Result AuthError AuthContext × S
  dedup (true, s) context = (err replay_nonce, s)
  dedup (false, s) context = (context, s)

  abbrev pub after_checks :
      Result AuthError (Unit {0})
      → Result AuthError AuthContext × S
      → S
      → Result AuthError AuthContext × S
  after_checks (err e) rest s = (err e, s)
  after_checks (ok u) rest s = rest

  -- AuthHeaderVerifier.Verify: the result, and the state of the nonce store after it. The verifier
  -- reads its own clock, `now`, and the store reads the wall clock, `wall`.
  unfoldable pub verify :
      (Text → Text → Text)
      → Codec
      → AuthHeaderVerifierConfig
      → Option (NonceStore S)
      → ℤ
      → ℤ
      → AuthHeaderValues
      → S
      → Result AuthError AuthContext × S
  verify mac codec cfg store now wall values s =
      after_checks (check_values mac cfg now values)
        (dedup (check_nonce cfg store wall values s) (verified_context codec cfg values)) s
