-- ===== src/Ulid/Batches.antt =====
-- The identifiers of one GenerateBatch of ulid/ulid.go increase.
use ais_pkg.Prelude.{ℕ, zero, suc, ◌≡◌, refl, arith, List, [], ◌∷◌, Option, some, none, length, All}
use ais_pkg.Prelude.Int.{pos}
use ais_pkg.Ulid.Defs.{Ulid, less, Libraries}
use ais_pkg.Ulid.Generator.{EntropyLibrary, onto, batch_loop, generate_batch}

-- Each ID is less than all that follow.
abbrev pub Increasing : Libraries → List Ulid → Type 0
Increasing lib [] = Unit {0}
Increasing lib (id ∷ ids) = All (λ later. lib.compare id later ≡ less) ids × Increasing lib ids

-- What the ulid package promises of a monotonic source at one millisecond: an ID is less than all
-- that the source gives later. `Above lib ms id s` says that the next IDs of `s` are above `id`.
pub record Monotone {S : Type 0} (libs : Libraries) (lib : EntropyLibrary S) (ms : ℕ) : Type 1 where
  pub Above : Ulid → S → Type 0
  pub made : (s s' : S) (id : Ulid) → lib.must_new ms s ≡ some (id, s') → Above id s'
  pub next :
      (s s' : S) (low id : Ulid)
      → Above low s
      → lib.must_new ms s ≡ some (id, s')
      → (libs.compare low id ≡ less) × Above low s'

-- What holds of the identifiers, if there is no panic.
abbrev OfBatch : {S : Type 0} → (List Ulid → Type 0) → Option (List Ulid × S) → Type 0
OfBatch P none = Unit {0}
OfBatch P (some (ids, s)) = P ids

of_onto :
    {S : Type 0} (lib : EntropyLibrary S) (P Q : List Ulid → Type 0) (id : Ulid)
    (r : Option (List Ulid × S))
    → ((ids : List Ulid) → P ids → Q (id ∷ ids))
    → OfBatch P r
    → OfBatch Q (onto lib id r)
of_onto lib P Q id none more h = tt
of_onto lib P Q id (some (ids, s)) more h = more ids h

both :
    {S : Type 0} (P Q : List Ulid → Type 0) (r : Option (List Ulid × S))
    → OfBatch P r
    → OfBatch Q r
    → OfBatch (λ ids. P ids × Q ids) r
both P Q none h k = tt
both P Q (some (ids, s)) h k = (h, k)

module _ {S : Type 0} (libs : Libraries) (lib : EntropyLibrary S) (ms : ℕ)
    (mono : Monotone libs lib ms) where
  abbrev AllAbove : Ulid → List Ulid → Type 0
  AllAbove low ids = All (λ later. libs.compare low later ≡ less) ids

  batch_above :
      (n : ℕ) (low : Ulid) (s : S)
      → mono.Above low s
      → OfBatch (AllAbove low) (batch_loop lib n ms s)
  unfolding batch_loop
  batch_above zero low s above = tt
  batch_above (suc n) low s above =
      after (lib.must_new ms s) refl (λ i t e. batch_above n low t (mono.next s t low i above e).1)
    where
      after :
          (o : Option (Ulid × S))
          → lib.must_new ms s ≡ o
          → ((i : Ulid) (t : S)
              → lib.must_new ms s ≡ some (i, t)
              → OfBatch (AllAbove low) (batch_loop lib n ms t))
          → OfBatch
              (AllAbove low)
              (elim o [ none ↦ none | some made ↦ onto lib made.0 (batch_loop lib n ms made.1) ])
      after none e rest = tt
      after (some (i, t)) e rest =
          of_onto lib (AllAbove low) (AllAbove low) i (batch_loop lib n ms t)
            (λ ids h. ((mono.next s t low i above e).0, h)) (rest i t e)

  abbrev Whole : ℕ → List Ulid → Type 0
  Whole n ids = Increasing libs ids × (length ids ≡ n)

  batch-Whole : (n : ℕ) (s : S) → OfBatch (Whole n) (batch_loop lib n ms s)
  unfolding batch_loop
  batch-Whole zero s = (tt, refl)
  batch-Whole (suc n) s = after (lib.must_new ms s) refl (λ t. batch-Whole n t)
    where
      after :
          (o : Option (Ulid × S))
          → lib.must_new ms s ≡ o
          → ((t : S) → OfBatch (Whole n) (batch_loop lib n ms t))
          → OfBatch
              (Whole (suc n))
              (elim o [ none ↦ none | some made ↦ onto lib made.0 (batch_loop lib n ms made.1) ])
      after none e rest = tt
      after (some (i, t)) e rest =
          of_onto lib (λ ids. AllAbove i ids × Whole n ids) (Whole (suc n)) i
            (batch_loop lib n ms t) (λ ids h. ((h.0, h.1.0), omega (arith, h.1.1)))
            (both (AllAbove i) (Whole n) (batch_loop lib n ms t)
              (batch_above n i t (mono.made s t i e)) (rest t))

-- The IDs of one batch are as many as asked for and each is less than all that follow, if the
-- entropy source is monotonic and no ulid.MustNew panics.
pub generate_batch-Increasing :
    {S : Type 0} (libs : Libraries) (lib : EntropyLibrary S) (n ms : ℕ) (s s' : S) (ids : List Ulid)
    → Monotone libs lib ms
    → generate_batch lib (pos n) ms s ≡ some (ids, s')
    → Increasing libs ids × (length ids ≡ n)
unfolding generate_batch
generate_batch-Increasing libs lib n ms s s' ids mono h = rw h at (batch-Whole libs lib ms mono n s)
