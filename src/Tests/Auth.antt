-- ===== src/Tests/Auth.antt =====
-- middleware/auth_header.go on concrete headers: a signer "gw" and a verifier that trusts it.
use ais_pkg.Prelude.{ℕ, ◌≡◌, ◌≢◌, refl, arith, true, false, [], ◌∷◌, ◌++◌, some, none, ok}
use ais_pkg.Prelude.Text.{Text, codes, trim_space, text_eq, join, strip, space_len, last_space_len}
use ais_pkg.Prelude.Int.{ℤ, pos, ◌+ℤ◌, ◌-ℤ◌, ◌≤ℤ◌, ◌<ℤ◌}
use ais_pkg.Prelude.Decimal.{format_int, format_nat, parse_int64, parse_digits}
use ais_pkg.Prelude.Maps.{lookup, insert, keep}
use ais_pkg.Auth.Types.{
  UserInfo, AuthHeaderValues, AuthContext, AuthHeaderSignerConfig, AuthHeaderVerifierConfig,
  AuthError,
}
use ais_pkg.Auth.Nonces.{mem_nonce_store, seen}
use ais_pkg.Auth.Signature.{build_signature_payload, sign_auth_header, secure_compare}
use ais_pkg.Auth.Payload.{SameFields, payload_determines_fields}
use ais_pkg.Auth.Signer.{Codec, encode_user_info, decode_user_info, build_headers, unsigned_values}
use ais_pkg.Auth.Verifier.{
  nanoseconds, secret_for_issuer, is_issuer_allowed, check_values, verified_context, check_nonce,
  verify,
}
use ais_pkg.Auth.Soundness.{IsGenuine, Describes, verify_sound}
use ais_pkg.Auth.Replay.{
  Request, verify_request, after_requests, replay_refused, replay_at_window_end,
}
use ais_pkg.Auth.Middleware.{authenticate, next}
use ais_pkg.Auth.Headers.{
  get, write_map, write_auth_headers, parse_auth_header_values, header_auth_version,
  header_auth_issuer, header_auth_timestamp, header_auth_nonce, header_auth_user,
  header_auth_signature,
}
use ais_pkg.Auth.RoundTrip.{CodecLaws, Trusts, build_headers-verify}

abbrev mac : Text → Text → Text
mac secret text = b'#' ∷ secret ++ text

abbrev ann : UserInfo
ann = record {
  user_id = b'a' ∷ [];
  tenant_id = [];
  dept_id = [];
  username = [];
  roles = [];
  permissions = [];
  extra = [];
}

abbrev codec : Codec
codec = record {
  marshal = λ u. some (b'{' ∷ []);
  unmarshal = λ d. some ann;
  raw_url_encode = λ d. b'e' ∷ d;
  raw_url_decode = λ d. some (b'{' ∷ []);
  std_decode = λ d. none;
}

abbrev key : Text
key = b'k' ∷ []

abbrev issuer : Text
issuer = b'g' ∷ b'w' ∷ []

abbrev signer : AuthHeaderSignerConfig
signer = record { enabled = true; secret = key; issuer = issuer; version = b'1' ∷ [] }

abbrev verifier : AuthHeaderVerifierConfig
verifier = record {
  enabled = true;
  secret = key;
  secrets = [];
  allowed_issuers = issuer ∷ [];
  version = b'1' ∷ [];
  max_age = pos 300_000_000_000;
  allowed_clock_skew = pos 30_000_000_000;
  allow_empty_user = true;
  allow_missing_nonce = false;
}

-- Headers for the user at 1030 seconds.
abbrev unsigned : AuthHeaderValues
unsigned = unsigned_values signer (b'n' ∷ []) (pos 1030) (b'e' ∷ b'{' ∷ [])

abbrev values : AuthHeaderValues
values = record unsigned {
  signature =
      b'#' ∷ b'k' ∷ b'1' ∷ b'|' ∷ b'g' ∷ b'w' ∷ b'|' ∷ b'1' ∷ b'0' ∷ b'3' ∷ b'0' ∷ b'|' ∷ b'n'
      ∷ b'|' ∷ b'e' ∷ b'{' ∷ [];
}

abbrev context : AuthContext
context = record {
  version = b'1' ∷ [];
  issuer = issuer;
  issued_at = pos 1030_000_000_000;
  nonce = b'n' ∷ [];
  user = some ann;
  user_value = b'e' ∷ b'{' ∷ [];
}

-- The clock when the headers arrive: the whole skew before their time.
abbrev now : ℤ
now = pos 1000_000_000_000

payload_determines_fields_example : SameFields values (record values { signature = [] })
payload_determines_fields_example =
    payload_determines_fields values (record values { signature = [] })
      (record {
        version = ground arith;
        issuer = ground arith;
        nonce = ground arith;
        user = ground arith;
      })
      refl

accepted : (verify mac codec verifier (some mem_nonce_store) now now values []).0 ≡ ok context
unfolding verify check_values is_issuer_allowed secret_for_issuer text_eq secure_compare
    sign_auth_header build_signature_payload join format_int format_nat ◌+ℤ◌ ◌-ℤ◌ check_nonce seen
    keep lookup insert verified_context decode_user_info trim_space strip space_len last_space_len
accepted = refl

verify_sound_example : IsGenuine mac verifier now values × Describes verifier values context
verify_sound_example =
    verify_sound mac codec verifier (some mem_nonce_store) now now values [] context accepted

abbrev forged : AuthHeaderValues
forged = record unsigned { signature = b'?' ∷ [] }

forged_ne :
    forged.signature ≢ sign_auth_header mac (secret_for_issuer verifier forged.issuer) forged
unfolding sign_auth_header
forged_ne = cc

abbrev first : Request
first = record { now = now; wall = now; values = values }

-- Another request in between, and the replay, a minute later.
abbrev soon : Request
soon = record { now = pos 1060_000_000_000; wall = pos 1060_000_000_000; values = values }

soon_early : soon.wall <ℤ first.wall +ℤ (verifier.max_age +ℤ verifier.allowed_clock_skew)
unfolding ◌+ℤ◌
soon_early = omega arith

replay_refused_example :
    (verify_request mac codec verifier soon (
      after_requests mac codec verifier
        (record soon { values = forged } ∷ [])
        (verify_request mac codec verifier first []).1)).0
    ≢ ok context
replay_refused_example =
    replay_refused mac codec verifier first soon (record soon { values = forged } ∷ []) [] context
      context accepted (cc) refl (soon_early, tt) soon_early

abbrev late : Request
late = record { now = pos 1400_000_000_000; wall = pos 1400_000_000_000; values = values }

late_late : first.now +ℤ (verifier.max_age +ℤ verifier.allowed_clock_skew) <ℤ late.now
unfolding ◌+ℤ◌
late_late = omega arith

sum_eq : pos 1030_000_000_000 ≡ now +ℤ pos 30_000_000_000
unfolding ◌+ℤ◌
sum_eq = refl

window_pos : pos 0 ≤ℤ (verifier.max_age +ℤ verifier.allowed_clock_skew)
unfolding ◌+ℤ◌
window_pos = omega arith

replay_at_window_end_example :
    (verify mac codec verifier
      (some mem_nonce_store)
      (now +ℤ (verifier.max_age +ℤ verifier.allowed_clock_skew))
      (now +ℤ (verifier.max_age +ℤ verifier.allowed_clock_skew))
      values
      (verify mac codec verifier (some mem_nonce_store) now now values []).1).0
    ≡ ok context
replay_at_window_end_example =
    replay_at_window_end mac codec verifier now values [] context accepted (cc) sum_eq window_pos

trim_doc : trim_space (b'e' ∷ b'{' ∷ []) ≡ b'e' ∷ b'{' ∷ []
unfolding trim_space strip space_len last_space_len
trim_doc = refl

codec_laws : CodecLaws codec ann
codec_laws = record {
  unmarshal-marshal = λ d h. refl;
  decode-encode = λ d h. h;
  trimmed = λ d h. rw (← doc d h) trim_doc;
  not_empty = λ d h. refl;
}
  where
    doc : (d : Text) → some (b'{' ∷ []) ≡ some d → (b'{' ∷ []) ≡ d
    doc d h = cc

user_encoded : encode_user_info codec (some ann) ≡ ok (b'e' ∷ b'{' ∷ [])
unfolding encode_user_info
user_encoded = refl

trusts : Trusts signer verifier
unfolding is_issuer_allowed secret_for_issuer text_eq
trusts = record { version = refl; version_set = cc; issuer = refl; secret = refl }

built : build_headers mac codec signer (some (b'n' ∷ [])) (pos 1030) (some ann) ≡ ok values
unfolding build_headers encode_user_info sign_auth_header build_signature_payload join format_int
    format_nat
built = refl

nonce_new : (check_nonce verifier (some mem_nonce_store) now values []).0 ≡ false
unfolding check_nonce seen keep lookup insert
nonce_new = refl

in_age : now -ℤ nanoseconds (pos 1030) ≤ℤ verifier.max_age
unfolding ◌-ℤ◌
in_age = omega arith

begun : nanoseconds (pos 1030) ≤ℤ now +ℤ verifier.allowed_clock_skew
unfolding ◌+ℤ◌
begun = omega arith

build_headers-verify_example :
    (verify mac codec verifier (some mem_nonce_store) now now values []).0 ≡ ok context
build_headers-verify_example =
    build_headers-verify mac signer verifier trusts codec (some mem_nonce_store) now now (pos 1030)
      (b'n' ∷ []) ann values [] codec_laws refl built refl (cc) (cc) in_age begun nonce_new refl

abbrev request : Text → Text
request = get (write_auth_headers [] values)

abbrev message : AuthError → Text
message e = []

request_parses : parse_auth_header_values request ≡ ok values
unfolding parse_auth_header_values write_auth_headers write_map insert lookup trim_space strip
    space_len last_space_len header_auth_version header_auth_issuer header_auth_timestamp
    header_auth_nonce header_auth_user header_auth_signature codes text_eq parse_int64 parse_digits
    format_int format_nat
request_parses = refl

passed_on :
    (authenticate {D = ℕ} mac codec message verifier (some mem_nonce_store) now now request []).0
    ≡ next (some context)
unfolding authenticate
passed_on = rw (request_parses, accepted) refl
