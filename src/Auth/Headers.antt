-- ===== src/Auth/Headers.antt =====
-- middleware/auth_header.go: header values to and from a header map, and the defaults of the two
-- constructors.
use ais_pkg.Prelude.{
  not, ◌||◌, ◌&&◌, List, [], Option, some, none, Result, ok, err, guard, ◌>>=◌, ◌>>◌, is_empty,
  if◌then◌else◌,
}
use ais_pkg.Prelude.Text.{Text, codes, trim_space}
use ais_pkg.Prelude.Int.{ℤ, pos, leb_ℤ, eqb_ℤ}
use ais_pkg.Prelude.Decimal.{format_int, parse_int64}
use ais_pkg.Prelude.Maps.{lookup, insert}
use ais_pkg.Auth.Types.{
  AuthHeaderValues, AuthHeaderSignerConfig, AuthHeaderVerifierConfig, AuthError, header_missing,
  invalid_ts,
}

-- A header map that holds one value for each name.
abbrev pub Headers : Type 0
Headers = List (Text × Text)

unfoldable pub header_auth_version : Text
header_auth_version = codes "X-AIS-Auth-V"

unfoldable pub header_auth_issuer : Text
header_auth_issuer = codes "X-AIS-Auth-Iss"

unfoldable pub header_auth_timestamp : Text
header_auth_timestamp = codes "X-AIS-Auth-Ts"

unfoldable pub header_auth_nonce : Text
header_auth_nonce = codes "X-AIS-Auth-Nonce"

unfoldable pub header_auth_user : Text
header_auth_user = codes "X-AIS-Auth-User"

unfoldable pub header_auth_signature : Text
header_auth_signature = codes "X-AIS-Auth-Sign"

-- AuthHeaderValues.ToMap, written into a header map
unfoldable pub write_map : AuthHeaderValues → Headers → Headers
write_map v h =
    let base = insert header_auth_version v.version (
      insert header_auth_issuer v.issuer (
        insert header_auth_timestamp (format_int v.timestamp)
          (insert header_auth_nonce v.nonce (insert header_auth_signature v.signature h)))) in
    if is_empty v.user then base else insert header_auth_user v.user base

-- WriteAuthHeaders into a header map that is not nil
unfoldable pub write_auth_headers : Headers → AuthHeaderValues → Headers
unfolding write_map
write_auth_headers h v =
    if is_empty v.version
      && is_empty v.issuer
      && eqb_ℤ v.timestamp (pos 0)
      && is_empty v.nonce
      && is_empty v.user
      && is_empty v.signature
    then h
    else write_map v h

-- The value of a header, empty if it is not there: http.Header.Get and fiber.Ctx.Get.
abbrev pub get : Headers → Text → Text
get h name = elim (lookup name h) [ none ↦ [] | some value ↦ value ]

abbrev positive : Option ℤ → Result AuthError ℤ
positive none = err invalid_ts
positive (some n) = if leb_ℤ n (pos 0) then err invalid_ts else ok n

-- parseAuthHeaderValues
unfoldable pub parse_auth_header_values : (Text → Text) → Result AuthError AuthHeaderValues
parse_auth_header_values get_value = do
  let version = trim_space (get_value header_auth_version)
  let issuer = trim_space (get_value header_auth_issuer)
  let stamp = trim_space (get_value header_auth_timestamp)
  let signature = trim_space (get_value header_auth_signature)
  guard (not (is_empty version || is_empty issuer || is_empty stamp || is_empty signature))
      header_missing
  timestamp ← positive (parse_int64 stamp)
  ok (record {
    version = version;
    issuer = issuer;
    timestamp = timestamp;
    nonce = trim_space (get_value header_auth_nonce);
    user = trim_space (get_value header_auth_user);
    signature = signature;
  })

abbrev or_v1 : Text → Text
or_v1 version = if is_empty version then codes "1" else version

-- NewAuthHeaderSigner
unfoldable pub new_auth_header_signer : AuthHeaderSignerConfig → AuthHeaderSignerConfig
new_auth_header_signer cfg = record cfg { version = or_v1 cfg.version }

-- NewAuthHeaderVerifier, with durations in nanoseconds: 5 minutes and 30 seconds by default
unfoldable pub new_auth_header_verifier : AuthHeaderVerifierConfig → AuthHeaderVerifierConfig
new_auth_header_verifier cfg = record cfg {
  version = or_v1 cfg.version;
  max_age = if eqb_ℤ cfg.max_age (pos 0) then pos 300_000_000_000 else cfg.max_age;
  allowed_clock_skew =
      if eqb_ℤ cfg.allowed_clock_skew (pos 0) then pos 30_000_000_000 else cfg.allowed_clock_skew;
}
