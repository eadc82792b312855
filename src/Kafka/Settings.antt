-- ===== src/Kafka/Settings.antt =====
-- mq/kafka/producer.go and consumer.go: the settings of the client library. Only what the program
-- sets is kept; `parse_version` and the loaders of certificates belong to libraries.
use ais_pkg.Prelude.{
  Bool, true, false, not, ◌&&◌, ◌||◌, [], ◌++◌, Option, some, none, Result, ok, err, ◌>>=◌,
  is_empty, if◌then◌else◌,
}
use ais_pkg.Prelude.Text.{Text, codes, text_eq}

pub data Acks : Type 0 where
  no_response wait_for_local wait_for_all : Acks

-- The switch on RequiredAcks.
unfoldable pub required_acks : Text → Acks
required_acks s =
    if text_eq s (codes "none")
    then no_response
    else if text_eq s (codes "leader")
    then wait_for_local
    else if text_eq s (codes "all")
    then wait_for_all
    else wait_for_local

pub data Compression : Type 0 where
  uncompressed gzip snappy lz4 zstd : Compression

-- The switch on Compression.
unfoldable pub compression_of : Text → Compression
compression_of s =
    if text_eq s (codes "gzip")
    then gzip
    else if text_eq s (codes "snappy")
    then snappy
    else if text_eq s (codes "lz4")
    then lz4
    else if text_eq s (codes "zstd")
    then zstd
    else uncompressed

pub data Mechanism : Type 0 where
  unset scram_sha_256 scram_sha_512 plaintext : Mechanism

-- mq.KafkaSASLConfig, and what applySASL makes of it
pub record SaslConfig : Type 0 where
  pub enable : Bool
  pub username : Text
  pub password : Text
  pub mechanism : Text

pub record Sasl : Type 0 where
  pub enable : Bool
  pub user : Text
  pub password : Text
  pub mechanism : Mechanism

abbrev pub no_sasl : Sasl
no_sasl = record { enable = false; user = []; password = []; mechanism = unset }

-- The switch on the mechanism.
abbrev pub mechanism_of : Text → Option Mechanism
mechanism_of s =
    if text_eq s (codes "SCRAM-SHA-256")
    then some scram_sha_256
    else if text_eq s (codes "SCRAM-SHA-512")
    then some scram_sha_512
    else if text_eq s (codes "PLAIN") || is_empty s
    then some plaintext
    else none

abbrev pub with_mechanism : SaslConfig → Option Mechanism → Option Text × Sasl
with_mechanism cfg (some m) =
    (none, record { enable = true; user = cfg.username; password = cfg.password; mechanism = m })
with_mechanism cfg none = (
  some (codes "unsupported SASL mechanism " ++ cfg.mechanism),
  record { enable = true; user = cfg.username; password = cfg.password; mechanism = unset },
)

-- applySASL: its error, if it has one, and the settings that it leaves
unfoldable pub apply_sasl : SaslConfig → Sasl → Option Text × Sasl
apply_sasl cfg old =
    if cfg.enable then with_mechanism cfg (mechanism_of cfg.mechanism) else (none, old)

-- mq.KafkaTLSConfig
pub record TlsConfig : Type 0 where
  pub enable : Bool
  pub ca_file : Text
  pub cert_file : Text
  pub key_file : Text
  pub insecure : Bool

-- tls.Config with the roots and the pair of certificate and key of the given types
pub record Tls (R C : Type 0) : Type 0 where
  pub insecure_skip_verify : Bool
  pub roots : Option R
  pub certificates : Option C

-- os.ReadFile, AppendCertsFromPEM on a new pool, and tls.LoadX509KeyPair
pub record TlsFiles (R C : Type 0) : Type 0 where
  pub read_file : Text → Result Text Text
  pub pool_of : Text → Option R
  pub load_pair : Text → Text → Result Text C

module _ {R C : Type 0} (files : TlsFiles R C) where
  abbrev pub pool_or_error : Option R → Result Text (Option R)
  pool_or_error none = err (codes "failed to append CA certs from PEM")
  pool_or_error (some pool) = ok (some pool)

  abbrev pub read_roots : Result Text Text → Result Text (Option R)
  read_roots (err e) = err (codes "failed to read CA file: " ++ e)
  read_roots (ok pem) = pool_or_error (files.pool_of pem)

  abbrev pub read_pair : Result Text C → Result Text (Option C)
  read_pair (err e) = err (codes "failed to load cert/key pair: " ++ e)
  read_pair (ok pair) = ok (some pair)

  -- buildTLSConfig
  unfoldable pub build_tls_config : TlsConfig → Result Text (Tls R C)
  build_tls_config cfg =
      (if is_empty cfg.ca_file then ok none else read_roots (files.read_file cfg.ca_file))
      >>= λ roots.
          (if not (is_empty cfg.cert_file) && not (is_empty cfg.key_file)
            then read_pair (files.load_pair cfg.cert_file cfg.key_file)
            else ok none)
          >>= λ pair.
              ok
                (record { insecure_skip_verify = cfg.insecure; roots = roots; certificates = pair })

  abbrev pub tls_applied : Result Text (Tls R C) → Result Text (Option (Tls R C))
  tls_applied (ok tls) = ok (some tls)
  tls_applied (err e) = err (codes "failed to build TLS config: " ++ e)

  -- applyTLS
  unfoldable pub apply_tls : TlsConfig → Result Text (Option (Tls R C))
  unfolding build_tls_config
  apply_tls cfg = if cfg.enable then tls_applied (build_tls_config cfg) else ok none

  abbrev pub without_error : Option Text × Sasl → Result Text Sasl
  without_error (none, sasl) = ok sasl
  without_error (some e, sasl) = err e

  -- The security settings at the end of buildSaramaConfig.
  unfoldable pub producer_security : SaslConfig → TlsConfig → Result Text (Sasl × Option (Tls R C))
  unfolding apply_sasl apply_tls
  producer_security sasl tls =
      without_error (apply_sasl sasl no_sasl) >>= λ s. apply_tls tls >>= λ t. ok (s, t)

  -- Those at the end of buildConsumerConfig, which leaves the error of applySASL aside.
  unfoldable pub consumer_security : SaslConfig → TlsConfig → Result Text (Sasl × Option (Tls R C))
  unfolding apply_sasl apply_tls
  consumer_security sasl tls = apply_tls tls >>= λ t. ok ((apply_sasl sasl no_sasl).1, t)
