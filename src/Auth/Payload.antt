-- ===== src/Auth/Payload.antt =====
-- The signed payload determines the header values, if those that were signed hold no delimiter.
use ais_pkg.Prelude.{ℕ, ◌+◌, ◌≡◌, refl, sym, ap, ◌∙◌, arith, ◌∷◌, ◌++◌}
use ais_pkg.Prelude.Text.{Text, Free, join, field_split, seps, seps-append, seps_free, free_of_seps}
use ais_pkg.Prelude.Decimal.{format_int, format_int_free, format_int_injective}
use ais_pkg.Auth.Types.{AuthHeaderValues}
use ais_pkg.Auth.Signature.{build_signature_payload, payload}

-- No field that goes into the payload holds the delimiter.
pub record HasNoDelimiter (v : AuthHeaderValues) : Type 0 where
  pub version : Free b'|' v.version
  pub issuer : Free b'|' v.issuer
  pub nonce : Free b'|' v.nonce
  pub user : Free b'|' v.user

pub record SameFields (v w : AuthHeaderValues) : Type 0 where
  pub version : v.version ≡ w.version
  pub issuer : v.issuer ≡ w.issuer
  pub timestamp : v.timestamp ≡ w.timestamp
  pub nonce : v.nonce ≡ w.nonce
  pub user : v.user ≡ w.user

-- The payload, bracketed to the right.
payload_lem :
    (v : AuthHeaderValues)
    → payload v
      ≡ v.version
        ++ b'|' ∷ (v.issuer ++ b'|' ∷ (format_int v.timestamp ++ b'|' ∷ (v.nonce ++ b'|' ∷ v.user)))
unfolding build_signature_payload join
payload_lem v = refl

-- The decimal timestamp holds no delimiter.
timestamp_free : (v : AuthHeaderValues) → Free b'|' (format_int v.timestamp)
timestamp_free v = format_int_free b'|' v.timestamp (omega arith)

abbrev bars : Text → ℕ
bars = seps b'|'

seps-cons : (s t : Text) → bars (s ++ b'|' ∷ t) ≡ bars s + bars t + 1
seps-cons s t = omega (arith, seps-append b'|' s (b'|' ∷ t))

-- The payload holds four delimiters, and those of the fields.
seps-payload :
    (v : AuthHeaderValues)
    → bars (payload v) ≡ bars v.version + bars v.issuer + bars v.nonce + bars v.user + 4
seps-payload v = rw payload_lem (
    omega (
      arith,
      seps-cons v.version _,
      seps-cons v.issuer _,
      seps-cons (format_int v.timestamp) _,
      seps-cons v.nonce v.user,
      seps_free b'|' (format_int v.timestamp) (timestamp_free v),
    ))

-- Values under the payload of values without a delimiter have none either.
payload-HasNoDelimiter :
    (v w : AuthHeaderValues) → HasNoDelimiter v → payload v ≡ payload w → HasNoDelimiter w
payload-HasNoDelimiter v w h e =
    let none_left : bars w.version + bars w.issuer + bars w.nonce + bars w.user ≡ 0 = omega (
      arith,
      seps-payload v,
      seps-payload w,
      ap bars e,
      seps_free b'|' v.version h.version,
      seps_free b'|' v.issuer h.issuer,
      seps_free b'|' v.nonce h.nonce,
      seps_free b'|' v.user h.user,
    ) in
    record {
      version = free_of_seps b'|' w.version (omega arith);
      issuer = free_of_seps b'|' w.issuer (omega arith);
      nonce = free_of_seps b'|' w.nonce (omega arith);
      user = free_of_seps b'|' w.user (omega arith);
    }

-- If the fields that were signed hold no delimiter, every set of header values with the same
-- payload has the same version, issuer, timestamp, nonce and user: no other reading of the signed
-- text exists, whatever the fields of the second set hold.
pub payload_determines_fields :
    (v w : AuthHeaderValues) → HasNoDelimiter v → payload v ≡ payload w → SameFields v w
payload_determines_fields v w h e =
    let k = payload-HasNoDelimiter v w h e in
    let (version, e₁) =
      field_split b'|' _ _ _ _ h.version k.version (sym (payload_lem v) ∙ e ∙ payload_lem w) in
    let (issuer, e₂) = field_split b'|' _ _ _ _ h.issuer k.issuer e₁ in
    let (stamp, e₃) = field_split b'|' _ _ _ _ (timestamp_free v) (timestamp_free w) e₂ in
    let (nonce, user) = field_split b'|' _ _ _ _ h.nonce k.nonce e₃ in
    record {
      version = version;
      issuer = issuer;
      timestamp = format_int_injective _ _ stamp;
      nonce = nonce;
      user = user;
    }
