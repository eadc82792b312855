-- ===== src/Auth/RoundTrip.antt =====
-- Headers that a signer builds are accepted by a verifier that trusts it.
use ais_pkg.Prelude.{
  ◌≡◌, ◌≢◌, ◌∙◌, arith, true, false, Option, some, ok, is_empty, Option-cases, Result-cases, inl,
  inr, [],
}
use ais_pkg.Prelude.Text.{Text, text_eq_refl, trim_space}
use ais_pkg.Prelude.Int.{ℤ, pos, ◌≤ℤ◌, ◌+ℤ◌, ◌-ℤ◌}
use ais_pkg.Auth.Types.{
  UserInfo, AuthHeaderValues, AuthHeaderSignerConfig, AuthHeaderVerifierConfig,
}
use ais_pkg.Auth.Nonces.{NonceStore}
use ais_pkg.Auth.Signature.{sign_auth_header, secure_compare}
use ais_pkg.Auth.Signer.{
  Codec, encoded, unsigned_values, encode_user_info, decode_user_info, build_headers,
}
use ais_pkg.Auth.Verifier.{
  nanoseconds, secret_for_issuer, is_issuer_allowed, check_values, check_nonce, verified_context,
  verify,
}
use ais_pkg.Auth.Soundness.{after_checks_pass}

-- What package encoding/json and base64 promise of the user `u`: decoding gives back what was
-- encoded, and base64 text of a document is not empty and has no white space at its ends.
pub record CodecLaws (codec : Codec) (u : UserInfo) : Type 0 where
  pub unmarshal-marshal : (d : Text) → codec.marshal u ≡ some d → codec.unmarshal d ≡ some u
  pub decode-encode :
      (d : Text) → codec.marshal u ≡ some d → codec.raw_url_decode (codec.raw_url_encode d) ≡ some d
  pub trimmed :
      (d : Text)
      → codec.marshal u ≡ some d
      → trim_space (codec.raw_url_encode d) ≡ codec.raw_url_encode d
  pub not_empty : (d : Text) → codec.marshal u ≡ some d → is_empty (codec.raw_url_encode d) ≡ false

encoded_eq :
    (codec : Codec) (value d : Text)
    → encoded codec (some d) ≡ ok value
    → value ≡ codec.raw_url_encode d
encoded_eq codec value d h = cc

-- Decoding the user header gives back the user that was encoded, if JSON and base64 decode what
-- they encode and base64 text is neither empty nor has white space at its ends.
pub decode-encode_user_info :
    (codec : Codec) (u : UserInfo) (value : Text)
    → CodecLaws codec u
    → encode_user_info codec (some u) ≡ ok value
    → decode_user_info codec value ≡ ok (some u)
unfolding encode_user_info decode_user_info
decode-encode_user_info codec u value laws h = elim (Option-cases (codec.marshal u)) [
  | inl failed ↦ cc (failed, h)
  | inr (d, m) ↦
      let e : value ≡ codec.raw_url_encode d = encoded_eq codec value d (rw m at h) in
      rw (
        e,
        laws.trimmed d m,
        laws.not_empty d m,
        laws.decode-encode d m,
        laws.unmarshal-marshal d m,
      )
]

-- The verifier trusts the signer: same version and secret, an allowed issuer.
pub record Trusts (signer : AuthHeaderSignerConfig) (verifier : AuthHeaderVerifierConfig)
    : Type 0 where
  pub version : verifier.version ≡ signer.version
  pub version_set : signer.version ≢ []
  pub issuer : is_issuer_allowed verifier signer.issuer ≡ true
  pub secret : secret_for_issuer verifier signer.issuer ≡ signer.secret

-- Values as `build_headers` makes them.
build_headers_values :
    (mac : Text → Text → Text) (codec : Codec) (signer : AuthHeaderSignerConfig) (nonce : Text)
    (unix : ℤ) (user : Option UserInfo) (v : AuthHeaderValues)
    → signer.enabled ≡ true
    → build_headers mac codec signer (some nonce) unix user ≡ ok v
    → (value : Text) × (encode_user_info codec user ≡ ok value)
      × (v ≡ record (unsigned_values signer nonce unix value) {
        signature = sign_auth_header mac signer.secret (unsigned_values signer nonce unix value);
      })
      × (is_empty signer.secret ≡ false)
      × (is_empty signer.issuer ≡ false)
unfolding build_headers
build_headers_values mac codec signer nonce unix user v on h =
    elim (Result-cases (encode_user_info codec user)) [
      | inl (value, e) ↦ (value, e, ground arith, ground arith, ground arith)
      | inr (x, e) ↦ absurd (ground arith)
    ]

module _ (mac : Text → Text → Text) (signer : AuthHeaderSignerConfig)
    (verifier : AuthHeaderVerifierConfig) (trusts : Trusts signer verifier) where
  abbrev signed : Text → ℤ → Text → AuthHeaderValues
  signed nonce unix value = record (unsigned_values signer nonce unix value) {
    signature = sign_auth_header mac signer.secret (unsigned_values signer nonce unix value);
  }

  check_values_signed :
      (now unix : ℤ) (nonce value : Text)
      → is_empty signer.secret ≡ false
      → is_empty signer.issuer ≡ false
      → nonce ≢ []
      → unix ≢ pos 0
      → is_empty (signed nonce unix value).signature ≡ false
      → now -ℤ nanoseconds unix ≤ℤ verifier.max_age
      → nanoseconds unix ≤ℤ now +ℤ verifier.allowed_clock_skew
      → check_values mac verifier now (signed nonce unix value) ≡ ok tt
  unfolding check_values secure_compare sign_auth_header
  check_values_signed now unix nonce value has_secret has_issuer ne started is_signed fresh begun =
      simp (trusts.version, trusts.issuer, trusts.secret, has_secret, has_issuer, text_eq_refl)
        (ground (arith, trusts.version_set))

  -- Headers built for a user by an enabled signer are accepted by a verifier that trusts the
  -- signer, if the encodings decode what they encode, the nonce and the signature are not empty
  -- and the nonce is new, the timestamp is not zero and lies within the maximal age and the clock
  -- skew, and the user has an id. The context then has that user.
  pub build_headers-verify :
      {S : Type 0} (codec : Codec) (store : Option (NonceStore S)) (now wall unix : ℤ)
      (nonce : Text) (u : UserInfo) (v : AuthHeaderValues) (s : S)
      → CodecLaws codec u
      → signer.enabled ≡ true
      → build_headers mac codec signer (some nonce) unix (some u) ≡ ok v
      → is_empty v.signature ≡ false
      → nonce ≢ []
      → unix ≢ pos 0
      → now -ℤ nanoseconds unix ≤ℤ verifier.max_age
      → nanoseconds unix ≤ℤ now +ℤ verifier.allowed_clock_skew
      → (check_nonce verifier store wall v s).0 ≡ false
      → is_empty u.user_id ≡ false
      → (verify mac codec verifier store now wall v s).0
        ≡ ok (record {
          version = signer.version;
          issuer = signer.issuer;
          issued_at = nanoseconds unix;
          nonce = nonce;
          user = some u;
          user_value = v.user;
        })
  unfolding verify verified_context
  build_headers-verify codec store now wall unix nonce u v s laws on built is_signed ne started
        fresh begun unseen named =
      let (value, encoded_user, shape, has_secret, has_issuer) =
        build_headers_values mac codec signer nonce unix (some u) v on built in
      let checked : check_values mac verifier now v ≡ ok tt = rw shape (
        check_values_signed now unix nonce value has_secret has_issuer ne started
          (rw shape at is_signed) fresh begun) in
      let user_back : decode_user_info codec v.user ≡ ok (some u) =
        rw shape (decode-encode_user_info codec u value laws encoded_user) in
      after_checks_pass s (check_values mac verifier now v) (check_nonce verifier store wall v s)
        (verified_context codec verifier v) checked unseen
      ∙ (rw user_back (rw shape (ground arith)))
