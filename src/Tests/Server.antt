-- ===== src/Tests/Server.antt =====
-- A concrete Redis server, which keeps values in a list and whose keys expire only by PEXPIRE.
use ais_pkg.Prelude.{◌≡◌, arith, List, [], ◌∷◌, none, if◌then◌else◌}
use ais_pkg.Prelude.Text.{Text, text_eq, text_eq_iff}
use ais_pkg.Prelude.Int.{ℤ, pos, ◌≤ℤ◌, ◌<ℤ◌, leb_ℤ}
use ais_pkg.Prelude.Maps.{lookup, insert, lookup-insert}
use ais_pkg.Lock.Redis.{Redis, RedisLaws}

unfoldable pub remove : Text → List (Text × Text) → List (Text × Text)
remove k [] = []
remove k ((j, v) ∷ m) = let rest = remove k m in if text_eq j k then rest else (j, v) ∷ rest

lookup-remove :
    (k j : Text) (m : List (Text × Text))
    → lookup j (remove k m) ≡ (if text_eq k j then none else lookup j m)
unfolding lookup remove
lookup-remove k j [] = ground arith
lookup-remove k j ((i, w) ∷ m) =
    ground (arith, text_eq_iff k j, text_eq_iff i k, text_eq_iff i j, lookup-remove k j m)

abbrev pub pexpired : Text → ℤ → List (Text × Text) → List (Text × Text)
pexpired k ms m = if leb_ℤ ms (pos 0) then remove k m else m

abbrev pub server : Redis
server = record {
  State = List (Text × Text);
  peek = λ m k. lookup k m;
  put = λ k v ttl m. insert k v m;
  delete = remove;
  pexpire = pexpired;
}

pexpired_later :
    (k j : Text) (ms : ℤ) (m : List (Text × Text))
    → pos 0 <ℤ ms
    → lookup j (pexpired k ms m) ≡ lookup j m
pexpired_later k j ms m h = ground arith

pexpired_past :
    (k j : Text) (ms : ℤ) (m : List (Text × Text))
    → ms ≤ℤ pos 0
    → lookup j (pexpired k ms m) ≡ (if text_eq k j then none else lookup j m)
pexpired_past k j ms m h = ground (arith, lookup-remove k j m)

pub server_laws : RedisLaws server
server_laws = record {
  peek-put = λ k v j ttl m. lookup-insert k j v m;
  peek-delete = lookup-remove;
  peek-pexpire = pexpired_later;
  peek-pexpire_past = pexpired_past;
}
