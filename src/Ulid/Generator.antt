-- ===== src/Ulid/Generator.antt =====
-- ulid/ulid.go: the generator, with the state of its entropy source passed on. `none` is a panic of
-- ulid.MustNew. A lock makes each function one step on the source.
use ais_pkg.Prelude.{ℕ, zero, suc, List, [], ◌∷◌, map, Option, some, none}
use ais_pkg.Prelude.Text.{Text}
use ais_pkg.Prelude.Int.{ℤ, pos, negsuc}
use ais_pkg.Ulid.Defs.{Ulid, Libraries}

-- The library's MustNew at a timestamp in milliseconds, and its Monotonic, which makes any source
-- monotonic; `random` is crypto/rand.
pub record EntropyLibrary (S : Type 0) : Type 0 where
  pub must_new : ℕ → S → Option (Ulid × S)
  pub is_monotonic : S → Option S
  pub monotonic : S → S
  pub random : S

module _ {S : Type 0} (lib : EntropyLibrary S) where
  abbrev pub or_random : Option S → S
  or_random none = lib.random
  or_random (some entropy) = entropy

  abbrev pub or_monotonic : S → Option S → S
  or_monotonic entropy none = lib.monotonic entropy
  or_monotonic entropy (some given) = given

  -- NewGenerator
  unfoldable pub new_generator : Option S → S
  new_generator entropy =
      let chosen = or_random entropy in or_monotonic chosen (lib.is_monotonic chosen)

  -- initEntropy, once
  unfoldable pub init_entropy : Option S → S
  init_entropy none = or_monotonic lib.random (lib.is_monotonic lib.random)
  init_entropy (some global) = global

  -- GenerateWithTime, and Generate at the time of the clock
  unfoldable pub generate_with_time : ℕ → S → Option (Ulid × S)
  generate_with_time ms entropy = lib.must_new ms entropy

  abbrev pub onto : Ulid → Option (List Ulid × S) → Option (List Ulid × S)
  onto id none = none
  onto id (some (ids, entropy)) = some (id ∷ ids, entropy)

  -- The loop of GenerateBatch.
  unfoldable pub batch_loop : ℕ → ℕ → S → Option (List Ulid × S)
  batch_loop zero ms entropy = some ([], entropy)
  batch_loop (suc n) ms entropy = elim (lib.must_new ms entropy) [
    | none ↦ none
    | some made ↦ onto made.0 (batch_loop n ms made.1)
  ]

  -- GenerateBatch, at the milliseconds of the clock
  unfoldable pub generate_batch : ℤ → ℕ → S → Option (List Ulid × S)
  unfolding batch_loop
  generate_batch (negsuc n) ms entropy = some ([], entropy)
  generate_batch (pos n) ms entropy = batch_loop n ms entropy

  abbrev pub as_strings : Libraries → Option (List Ulid × S) → Option (List Text × S)
  as_strings libs none = none
  as_strings libs (some (ids, entropy)) = some (map (libs.string) ids, entropy)

  -- GenerateBatchString
  unfoldable pub generate_batch_string : Libraries → ℤ → ℕ → S → Option (List Text × S)
  unfolding generate_batch
  generate_batch_string libs count ms entropy = as_strings libs (generate_batch count ms entropy)
