-- ===== src/Prelude/Maps.antt =====
-- Go maps with string keys, as association lists. The program's maps are read by key; where the
-- source iterates over one, the order of the entries is not fixed by Go.
use mathlib.Core.Path.{◌≡◌, refl}
use mathlib.Core.Bool.{Bool, true}
use mathlib.Core.Option.{Option, none, some}
use mathlib.Core.List.{List, [], ◌∷◌}
use native.Mathlib.Omega.{arith}
use ais_pkg.Prelude.Tests.{if◌then◌else◌}
use ais_pkg.Prelude.Text.{Text, text_eq, text_eq_iff}

module _ {ℓ} {V : Type ℓ} where
  -- v, ok := m[k]
  unfoldable pub lookup : Text → List (Text × V) → Option V
  lookup k [] = none
  lookup k ((j, v) ∷ m) = if text_eq j k then some v else lookup k m

  -- m[k] = v
  unfoldable pub insert : Text → V → List (Text × V) → List (Text × V)
  insert k v [] = (k, v) ∷ []
  insert k v ((j, w) ∷ m) = if text_eq j k then (k, v) ∷ m else (j, w) ∷ insert k v m

  -- delete(m, k) for each entry that the test does not keep
  unfoldable pub keep : (V → Bool) → List (Text × V) → List (Text × V)
  keep p [] = []
  keep p ((j, v) ∷ m) = let rest = keep p m in if p v then (j, v) ∷ rest else rest

  pub lookup-insert :
      (k j : Text) (v : V) (m : List (Text × V))
      → lookup j (insert k v m) ≡ (if text_eq k j then some v else lookup j m)
  unfolding lookup insert
  lookup-insert k j v [] = refl
  lookup-insert k j v ((i, w) ∷ m) =
      ground (arith, text_eq_iff k j, text_eq_iff i k, text_eq_iff i j, lookup-insert k j v m)

  -- An entry that the test keeps is found as before.
  pub lookup-keep :
      (p : V → Bool) (k : Text) (v : V) (m : List (Text × V))
      → lookup k m ≡ some v
      → p v ≡ true
      → lookup k (keep p m) ≡ some v
  unfolding lookup keep
  lookup-keep p k v [] h q = cc
  lookup-keep p k v ((j, w) ∷ m) h q = ground (arith, lookup-keep p k v m)
