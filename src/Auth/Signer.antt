-- ===== src/Auth/Signer.antt =====
-- middleware/auth_header.go: encoding of the user info, and AuthHeaderSigner.
use ais_pkg.Prelude.{
  not, [], if◌then◌else◌, Option, some, none, Result, ok, err, guard, ◌>>=◌, ◌>>◌, is_empty,
}
use ais_pkg.Prelude.Text.{Text, trim_space}
use ais_pkg.Prelude.Int.{ℤ, pos}
use ais_pkg.Auth.Types.{
  UserInfo, AuthHeaderValues, AuthHeaderSignerConfig, AuthError, missing_secret, invalid_issuer,
  encode_error, entropy_error, decode_error,
}
use ais_pkg.Auth.Signature.{sign_auth_header}

-- encoding/json at UserInfo, and the two base64 encodings. `none` is an error.
pub record Codec : Type 0 where
  pub marshal : UserInfo → Option Text
  pub unmarshal : Text → Option UserInfo
  pub raw_url_encode : Text → Text
  pub raw_url_decode : Text → Option Text
  pub std_decode : Text → Option Text

abbrev pub encoded : Codec → Option Text → Result AuthError Text
encoded codec none = err encode_error
encoded codec (some data_bytes) = ok (codec.raw_url_encode data_bytes)

-- EncodeUserInfo
unfoldable pub encode_user_info : Codec → Option UserInfo → Result AuthError Text
encode_user_info codec none = ok []
encode_user_info codec (some user) = encoded codec (codec.marshal user)

abbrev pub decoded : Option UserInfo → Result AuthError (Option UserInfo)
decoded none = err decode_error
decoded (some user) = ok (some user)

abbrev pub or_std : Codec → Text → Option Text → Option Text
or_std codec value none = codec.std_decode value
or_std codec value (some data_bytes) = some data_bytes

abbrev pub unmarshalled : Codec → Option Text → Result AuthError (Option UserInfo)
unmarshalled codec none = err decode_error
unmarshalled codec (some data_bytes) = decoded (codec.unmarshal data_bytes)

-- DecodeUserInfo
unfoldable pub decode_user_info : Codec → Text → Result AuthError (Option UserInfo)
decode_user_info codec value =
    let trimmed = trim_space value in
    if is_empty trimmed
    then ok none
    else unmarshalled codec (or_std codec trimmed (codec.raw_url_decode trimmed))

abbrev pub nonce_of : Option Text → Result AuthError Text
nonce_of none = err entropy_error
nonce_of (some nonce) = ok nonce

abbrev pub no_values : AuthHeaderValues
no_values = record {
  version = [];
  issuer = [];
  timestamp = pos 0;
  nonce = [];
  user = [];
  signature = [];
}

abbrev pub unsigned_values : AuthHeaderSignerConfig → Text → ℤ → Text → AuthHeaderValues
unsigned_values cfg nonce unix user_value = record {
  version = cfg.version;
  issuer = cfg.issuer;
  timestamp = unix;
  nonce = nonce;
  user = user_value;
  signature = [];
}

-- AuthHeaderSigner.BuildHeaders at the time `unix`, in seconds. `entropy` is what generateNonce
-- returns, `none` if the random source failed.
unfoldable pub build_headers :
    (Text → Text → Text)
    → Codec
    → AuthHeaderSignerConfig
    → Option Text
    → ℤ
    → Option UserInfo
    → Result AuthError AuthHeaderValues
build_headers mac codec cfg entropy unix user =
    if cfg.enabled
    then (do
      guard (not (is_empty cfg.secret)) missing_secret
      guard (not (is_empty cfg.issuer)) invalid_issuer
      user_value ← encode_user_info codec user
      nonce ← nonce_of entropy
      let unsigned = unsigned_values cfg nonce unix user_value
      ok (record unsigned { signature = sign_auth_header mac cfg.secret unsigned }))
    else ok no_values
