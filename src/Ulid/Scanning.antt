-- ===== src/Ulid/Scanning.antt =====
-- What Scan of ulid/id.go accepts, and what it leaves alone.
use ais_pkg.Prelude.{
  ◌≡◌, ◌⊎◌, refl, ap, arith, true, [], ◌∷◌, Option, some, none, inl, inr, Bool-cases, length,
  is_empty, ◌==◌,
}
use ais_pkg.Prelude.Text.{Text, trim_space}
use ais_pkg.Ulid.Defs.{
  Ulid, Libraries, zero_id, UlidError, Source, null, bytes_of, string_of, anything, from_library,
  Outcome, scan_text, scan,
}

-- The source is NULL or white space.
abbrev pub Blank : Source → Type 0
Blank null = Unit {0}
Blank (bytes_of v) = (v ≡ []) ⊎ (trim_space v ≡ [])
Blank (string_of v) = trim_space v ≡ []
Blank anything = ⊥

-- The library reads the ID from the source: 16 bytes as they are, or 26 bytes or a string, trimmed.
abbrev pub ReadBy : Libraries → Ulid → Source → Ulid → Type 0
ReadBy lib old null id = ⊥
ReadBy lib old (bytes_of v) id =
    ((length v ≡ 16) × (lib.unmarshal_binary old v ≡ (none, id)))
    ⊎ ((length (trim_space v) ≡ 26) × (lib.unmarshal_text old (trim_space v) ≡ (none, id)))
ReadBy lib old (string_of v) id = lib.unmarshal_text old (trim_space v) ≡ (none, id)
ReadBy lib old anything id = ⊥

nothing : (s : Text) → (length s == 0) ≡ true → s ≡ []
nothing [] h = refl
nothing (c ∷ s) h = absurd (ground arith)

empty_text : (s : Text) → is_empty s ≡ true → s ≡ []
empty_text [] h = refl
empty_text (c ∷ s) h = absurd (cc)

read_ok : (r : Option Text × Ulid) (id : Ulid) → from_library r ≡ (none, id) → r ≡ (none, id)
read_ok (none, i) id h = ap (λ o. (none, o.1)) h
read_ok (some e, i) id h = absurd (cc)

module _ (lib : Libraries) (old id : Ulid) where
  -- The ID is zero and the source blank, or the library read it.
  abbrev pub Scanned : Source → Type 0
  Scanned src = (Blank src × (id ≡ zero_id)) ⊎ ReadBy lib old src id

  zero_of : (i : Ulid) → Path Outcome (none, i) (none, id) → id ≡ i
  zero_of i h = cc

  scan_text-Scanned :
      (v : Text) → scan_text lib old (trim_space v) ≡ (none, id) → Scanned (bytes_of v)
  scan_text-Scanned v h = elim (Bool-cases (length (trim_space v) == 0)) [
    | inl e ↦ inl (inr (nothing (trim_space v) e), zero_of zero_id (rw e at h))
    | inr e ↦ elim (Bool-cases (length (trim_space v) == 26)) [
      | inl k ↦ inr (inr (ground arith, read_ok _ id (rw (e, k) at h)))
      | inr k ↦ absurd (refused (rw (e, k) at h))
    ]
  ]
    where
      refused : {e : UlidError} → Path Outcome (some e, old) (none, id) → ⊥
      refused h = cc

  scanned : (src : Source) → scan lib old src ≡ (none, id) → Scanned src
  unfolding scan
  scanned null h = inl (tt, zero_of zero_id h)
  scanned (bytes_of v) h = elim (Bool-cases (length v == 0)) [
    | inl e ↦ inl (inl (nothing v e), zero_of zero_id (rw e at h))
    | inr e ↦ elim (Bool-cases (length v == 16)) [
      | inl k ↦ inr (inl (ground arith, read_ok _ id (rw (e, k) at h)))
      | inr k ↦ scan_text-Scanned v (rw (e, k) at h)
    ]
  ]
  scanned (string_of v) h = elim (Bool-cases (is_empty (trim_space v))) [
    | inl e ↦ inl (empty_text (trim_space v) e, zero_of zero_id (rw e at h))
    | inr e ↦ inr (read_ok _ id (rw e at h))
  ]
  scanned anything h = absurd (cc)

-- If Scan succeeds, the source is NULL or white space and the ID is zero, or the ulid package read
-- the ID from 16 bytes, from 26 bytes of text or from a string, both without the white space at
-- their ends.
pub scan-Scanned :
    (lib : Libraries) (old id : Ulid) (src : Source)
    → scan lib old src ≡ (none, id)
    → Scanned lib old id src
scan-Scanned lib old id src h = scanned lib old id src h
