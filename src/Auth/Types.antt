-- ===== src/Auth/Types.antt =====
-- middleware/auth_header.go: header values, user info, verified context, errors, configurations.
use ais_pkg.Prelude.{Bool, List, Option}
use ais_pkg.Prelude.Text.{Text}
use ais_pkg.Prelude.Int.{ℤ}

-- UserInfo
pub record UserInfo : Type 0 where
  pub user_id : Text
  pub tenant_id : Text
  pub dept_id : Text
  pub username : Text
  pub roles : List Text
  pub permissions : List Text
  pub extra : List (Text × Text)

-- AuthHeaderValues
pub record AuthHeaderValues : Type 0 where
  pub version : Text
  pub issuer : Text
  pub timestamp : ℤ
  pub nonce : Text
  pub user : Text
  pub signature : Text

-- AuthContext, with `issued_at` in nanoseconds
pub record AuthContext : Type 0 where
  pub version : Text
  pub issuer : Text
  pub issued_at : ℤ
  pub nonce : Text
  pub user : Option UserInfo
  pub user_value : Text

-- The `ErrAuthHeader…` values, and two errors of the standard library that `build_headers` and
-- `decode_user_info` pass on.
pub data AuthError : Type 0 where
  header_missing invalid_version invalid_issuer invalid_ts missing_nonce missing_user : AuthError
  invalid_user invalid_sign header_expired not_yet_valid missing_secret : AuthError
  issuer_not_allowed replay_nonce : AuthError
  encode_error entropy_error decode_error : AuthError

-- AuthHeaderSignerConfig, after the defaults of NewAuthHeaderSigner
pub record AuthHeaderSignerConfig : Type 0 where
  pub enabled : Bool
  pub secret : Text
  pub issuer : Text
  pub version : Text

-- AuthHeaderVerifierConfig, durations in nanoseconds
pub record AuthHeaderVerifierConfig : Type 0 where
  pub enabled : Bool
  pub secret : Text
  pub secrets : List (Text × Text)
  pub allowed_issuers : List Text
  pub version : Text
  pub max_age : ℤ
  pub allowed_clock_skew : ℤ
  pub allow_empty_user : Bool
  pub allow_missing_nonce : Bool
