-- ===== src/Auth/Signature.antt =====
-- middleware/auth_header.go: the signed payload, and the signature over it.
-- `mac secret payload` stands for hex(HMAC-SHA256(secret, payload)) of package crypto.
use ais_pkg.Prelude.{Bool, [], ◌∷◌}
use ais_pkg.Prelude.Text.{Text, text_eq, join}
use ais_pkg.Prelude.Int.{ℤ}
use ais_pkg.Prelude.Decimal.{format_int}
use ais_pkg.Auth.Types.{AuthHeaderValues}

-- buildSignaturePayload
unfoldable pub build_signature_payload : Text → Text → ℤ → Text → Text → Text
build_signature_payload version issuer timestamp nonce user =
    join b'|' (version ∷ issuer ∷ format_int timestamp ∷ nonce ∷ user ∷ [])

-- The payload that a set of header values is signed under.
abbrev pub payload : AuthHeaderValues → Text
payload v = build_signature_payload v.version v.issuer v.timestamp v.nonce v.user

-- signAuthHeader
unfoldable pub sign_auth_header : (Text → Text → Text) → Text → AuthHeaderValues → Text
sign_auth_header mac secret v = mac secret (payload v)

-- secureCompare: subtle.ConstantTimeCompare is 1 exactly for equal byte slices
unfoldable pub secure_compare : Text → Text → Bool
secure_compare expected provided = text_eq expected provided
