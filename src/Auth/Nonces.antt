-- ===== src/Auth/Nonces.antt =====
-- middleware/auth_header.go: the NonceStore interface, and memNonceStore.
use ais_pkg.Prelude.{Bool, true, false, not, List, Option, some, none, if◌then◌else◌}
use ais_pkg.Prelude.Text.{Text}
use ais_pkg.Prelude.Int.{ℤ, ◌+ℤ◌, ltb_ℤ}
use ais_pkg.Prelude.Maps.{lookup, insert, keep}

-- NonceStore: `seen` is called at a time of the wall clock, with a nonce and a ttl.
pub record NonceStore (S : Type 0) : Type 0 where
  pub seen : ℤ → Text → ℤ → S → Bool × S

-- The map `entries` of memNonceStore, from a nonce to its expiry.
abbrev pub Entries : Type 0
Entries = List (Text × ℤ)

-- ok && now.Before(exp)
abbrev pub is_live : ℤ → Option ℤ → Bool
is_live now none = false
is_live now (some exp) = ltb_ℤ now exp

-- !now.After(exp)
abbrev pub unexpired : ℤ → ℤ → Bool
unexpired now exp = not (ltb_ℤ exp now)

-- memNonceStore.Seen
unfoldable pub seen : ℤ → Text → ℤ → Entries → Bool × Entries
seen now nonce ttl entries =
    let kept = keep (unexpired now) entries in
    if is_live now (lookup nonce kept)
    then (true, kept)
    else (false, insert nonce (now +ℤ ttl) kept)

-- NewMemNonceStore
abbrev pub mem_nonce_store : NonceStore Entries
mem_nonce_store = record { seen = seen }
