-- ===== src/Ulid/RoundTrip.antt =====
-- The forms of an ID in ulid/id.go and ulid/convert.go are read back.
use mathlib.Core.List.{reverse, reverse_aux, reverse-reverse}
use ais_pkg.Prelude.{
  ℕ, zero, suc, ◌≡◌, refl, sym, ap, ◌∙◌, arith, Bool, true, false, ◌&&◌, ◌||◌, [], ◌∷◌, ◌++◌,
  Option, none, inl, inr, Bool-cases, ok, leb, ◌==◌, length, is_empty, if◌then◌else◌, All,
}
use ais_pkg.Prelude.Text.{Text, codes, text_eq, trim_space, strip, space_len, last_space_len}
use ais_pkg.Ulid.Defs.{
  Ulid, is_same, UlidError, Libraries, zero_id, null, bytes_of, string_of, from_library, is_zero,
  value, scan, marshal_json, unmarshal_json, marshal_text, unmarshal_text, marshal_binary,
  unmarshal_binary, copy, to_uuid, from_uuid, uuid_parsed, to_uuid_string, from_uuid_string,
}

-- A letter of Crockford's base 32, as ULIDs are written.
abbrev pub is_base32 : ℕ → Bool
is_base32 c = (leb b'0' c && leb c b'9') || (leb b'A' c && leb c b'Z')

abbrev pub Base32 : Text → Type 0
Base32 = All (λ c. is_base32 c ≡ true)

-- What the libraries promise of an ID: two IDs compare as the same only if they are equal, the text
-- has 26 letters, the binary form 16 bytes, each reader takes what its writer wrote, and JSON puts
-- letters between quotes.
pub record Reads (lib : Libraries) (id : Ulid) : Type 0 where
  pub same→eq : is_same (lib.compare id zero_id) ≡ true → id ≡ zero_id
  pub letters : Base32 (lib.string id)
  pub text_letters : Base32 (lib.marshal_text id)
  pub length-string : length (lib.string id) ≡ 26
  pub length-marshal_text : length (lib.marshal_text id) ≡ 26
  pub length-marshal_binary : length (lib.marshal_binary id) ≡ 16
  pub parse-string : lib.parse (lib.string id) ≡ ok id
  pub unmarshal_text-marshal_text :
      (old : Ulid) → lib.unmarshal_text old (lib.marshal_text id) ≡ (none, id)
  pub unmarshal_binary-marshal_binary :
      (old : Ulid) → lib.unmarshal_binary old (lib.marshal_binary id) ≡ (none, id)
  pub json_marshal-letters : (s : Text) → Base32 s → lib.json_marshal s ≡ b'"' ∷ s ++ b'"' ∷ []
  pub json_unmarshal-letters :
      (s : Text) → Base32 s → lib.json_unmarshal (b'"' ∷ s ++ b'"' ∷ []) ≡ ok s

space_len-base32 : (c : ℕ) (s : Text) → is_base32 c ≡ true → space_len (c ∷ s) ≡ 0
unfolding space_len
space_len-base32 c [] h = ground arith
space_len-base32 c (b ∷ []) h = ground arith
space_len-base32 c (b ∷ a ∷ s) h = ground arith

-- Neither of the five tests finds white space of three bytes.
tests :
    (p q r s t : Bool)
    → r ≡ false
    → s ≡ false
    → t ≡ false
    → ((if p then 1 else if q then 2 else if r then 3 else if s then 3 else if t then 3 else 0)
        == 3)
      ≡ false
tests true q r s t hr hs ht = refl
tests false true r s t hr hs ht = refl
tests false false r s t hr hs ht = rw (hr, hs, ht) refl

three-base32 : (a b c : ℕ) → is_base32 c ≡ true → (space_len (a ∷ b ∷ c ∷ []) == 3) ≡ false
unfolding space_len
three-base32 a b c h =
    tests (a == 32 || (leb 9 a && leb a 13)) (a == 0xC2 && (b == 0x85 || b == 0xA0))
      (a == 0xE1 && b == 0x9A && c == 0x80)
      (a == 0xE2
        && b == 0x80
        && ((leb 0x80 c && leb c 0x8A) || c == 0xA8 || c == 0xA9 || c == 0xAF))
      ((a == 0xE2 && b == 0x81 && c == 0x9F) || (a == 0xE3 && b == 0x80 && c == 0x80))
      (ground arith) (ground arith) (ground arith)

if_not : (b : Bool) (m n : ℕ) → b ≡ false → (if b then m else n) ≡ n
if_not b m n h = rw h refl

last_space_len-base32 : (c : ℕ) (s : Text) → is_base32 c ≡ true → last_space_len (c ∷ s) ≡ 0
unfolding last_space_len
last_space_len-base32 c [] h = space_len-base32 c [] h
last_space_len-base32 c (b ∷ []) h = ground arith
last_space_len-base32 c (b ∷ a ∷ s) h =
    if_not _ 1 _ (ground arith) ∙ if_not _ 2 _ (ground arith) ∙ if_not _ 3 0 (three-base32 a b c h)

strip_stops : (width : Text → ℕ) (f : ℕ) (s : Text) → width s ≡ 0 → strip width f s ≡ s
unfolding strip
strip_stops width zero s h = refl
strip_stops width (suc f) s h = rw (h, strip) refl

reverse_aux-Base32 : (s t : Text) → Base32 s → Base32 t → Base32 (reverse_aux s t)
reverse_aux-Base32 [] t hs ht = ht
reverse_aux-Base32 (c ∷ s) t hs ht = reverse_aux-Base32 s (c ∷ t) hs.1 (hs.0, ht)

start-Base32 : (s : Text) → Base32 s → space_len s ≡ 0
unfolding space_len
start-Base32 [] h = refl
start-Base32 (c ∷ s) h = space_len-base32 c s h.0

end-Base32 : (s : Text) → Base32 s → last_space_len s ≡ 0
unfolding last_space_len
end-Base32 [] h = refl
end-Base32 (c ∷ s) h = last_space_len-base32 c s h.0

-- A text of letters has no white space at its ends.
pub trim_space-Base32 : (s : Text) → Base32 s → trim_space s ≡ s
unfolding trim_space
trim_space-Base32 s h = rw (strip_stops space_len (length s) s (start-Base32 s h)) (
    rw
      (strip_stops last_space_len (length s) (reverse s)
        (end-Base32 (reverse s) (reverse_aux-Base32 s [] h tt)))
      (reverse-reverse s))

not_empty : (s : Text) → length s ≡ 26 → is_empty s ≡ false
not_empty [] h = absurd (omega arith)
not_empty (c ∷ s) h = refl

and_false : (b : Bool) → (b && false) ≡ false
and_false true = refl
and_false false = refl

-- Quoted letters are neither null nor an empty string.
quoted :
    (s : Text)
    → length s ≡ 26
    → (text_eq (b'"' ∷ s ++ b'"' ∷ []) (codes "null")
        || text_eq (b'"' ∷ s ++ b'"' ∷ []) (b'"' ∷ b'"' ∷ []))
      ≡ false
unfolding text_eq codes
quoted [] h = absurd (omega arith)
quoted (c ∷ []) h = and_false (c == b'"')
quoted (c ∷ d ∷ s) h = and_false (c == b'"')

module _ (lib : Libraries) (id : Ulid) (reads : Reads lib id) where
  -- A zero ID is read as zero, and any other as it was written.
  either :
      {A : Type 0} (read : A → Option UlidError × Ulid) (empty written : A)
      → read empty ≡ (none, zero_id)
      → read written ≡ (none, id)
      → read (if is_zero lib id then empty else written) ≡ (none, id)
  unfolding is_zero
  either read empty written hz hw = elim (Bool-cases (is_zero lib id)) [
    | inl k ↦ rw k (hz ∙ sym (ap (λ i. (none, i)) (reads.same→eq k)))
    | inr k ↦ rw k hw
  ]

  scan-value : (old : Ulid) → scan lib old (value lib id) ≡ (none, id)
  unfolding scan value
  scan-value old =
      either (scan lib old) null (bytes_of (lib.marshal_binary id)) refl
        (rw (reads.length-marshal_binary, reads.unmarshal_binary-marshal_binary old) refl)

  -- A column of characters is read as well.
  scan-marshal_text : (old : Ulid) → scan lib old (string_of (marshal_text lib id)) ≡ (none, id)
  unfolding scan marshal_text trim_space
  scan-marshal_text old =
      either (λ s. scan lib old (string_of s)) [] (lib.marshal_text id) refl
        (rw
          (
            trim_space-Base32 (lib.marshal_text id) reads.text_letters,
            not_empty (lib.marshal_text id) reads.length-marshal_text,
            reads.unmarshal_text-marshal_text old,
          )
          refl)

  unmarshal_binary-marshal_binary :
      (old : Ulid) → unmarshal_binary lib old (marshal_binary lib id) ≡ (none, id)
  unfolding unmarshal_binary marshal_binary
  unmarshal_binary-marshal_binary old =
      either (unmarshal_binary lib old) [] (lib.marshal_binary id) refl
        (rw (reads.length-marshal_binary, reads.unmarshal_binary-marshal_binary old) refl)

  unmarshal_text-marshal_text :
      (old : Ulid) → unmarshal_text lib old (marshal_text lib id) ≡ (none, id)
  unfolding unmarshal_text marshal_text trim_space
  unmarshal_text-marshal_text old =
      either (unmarshal_text lib old) [] (lib.marshal_text id) refl
        (written (trim_space-Base32 (lib.marshal_text id) reads.text_letters))
    where
      written :
          trim_space (lib.marshal_text id) ≡ lib.marshal_text id
          → (let trimmed = trim_space (lib.marshal_text id) in
              if length trimmed == 0
              then (none, zero_id)
              else from_library (lib.unmarshal_text old trimmed))
            ≡ (none, id)
      written e = rw (e, reads.length-marshal_text, reads.unmarshal_text-marshal_text old) refl

  unmarshal_json-marshal_json :
      (old : Ulid) → unmarshal_json lib old (marshal_json lib id) ≡ (none, id)
  unfolding unmarshal_json marshal_json codes text_eq
  unmarshal_json-marshal_json old =
      either (unmarshal_json lib old) (codes "null") (lib.json_marshal (lib.string id)) refl (
        rw
          (
            reads.json_marshal-letters (lib.string id) reads.letters,
            quoted (lib.string id) reads.length-string,
            reads.json_unmarshal-letters (lib.string id) reads.letters,
            trim_space-Base32 (lib.string id) reads.letters,
            not_empty (lib.string id) reads.length-string,
            reads.parse-string,
          )
          refl)

-- Every form of an ID is read back as the ID, whatever ID the reader had before: the value of a
-- column, a column of text, JSON, text and bytes. A zero ID goes through NULL, null and empty
-- texts. The libraries read what they write.
pub forms_read_back :
    (lib : Libraries) (id old : Ulid)
    → Reads lib id
    → (scan lib old (value lib id) ≡ (none, id))
      × (scan lib old (string_of (marshal_text lib id)) ≡ (none, id))
      × (unmarshal_json lib old (marshal_json lib id) ≡ (none, id))
      × (unmarshal_text lib old (marshal_text lib id) ≡ (none, id))
      × (unmarshal_binary lib old (marshal_binary lib id) ≡ (none, id))
forms_read_back lib id old reads = (
  scan-value lib id reads old,
  scan-marshal_text lib id reads old,
  unmarshal_json-marshal_json lib id reads old,
  unmarshal_text-marshal_text lib id reads old,
  unmarshal_binary-marshal_binary lib id reads old,
)

copy_all : (to from : Text) → length to ≡ length from → copy to from ≡ from
copy_all [] [] h = refl
copy_all [] (c ∷ from) h = absurd (omega arith)
copy_all (b ∷ to) [] h = absurd (omega arith)
copy_all (b ∷ to) (c ∷ from) h = ap (◌∷◌ c) (copy_all to from (omega arith))

to_uuid_eq : (id : Ulid) → length id ≡ 16 → to_uuid id ≡ id
unfolding to_uuid zero_id
to_uuid_eq id h = copy_all zero_id id (omega (arith, h))

from_uuid_eq : (u : Text) → length u ≡ 16 → from_uuid u ≡ u
unfolding from_uuid zero_id
from_uuid_eq u h = copy_all zero_id u (omega (arith, h))

-- An ID of 16 bytes is read back from the text of its UUID, if package uuid reads what it writes.
pub from_uuid_string-to_uuid_string :
    (lib : Libraries) (id : Ulid)
    → length id ≡ 16
    → lib.uuid_parse (lib.uuid_string id) ≡ ok id
    → from_uuid_string lib (to_uuid_string lib id) ≡ ok id
unfolding from_uuid_string to_uuid_string
from_uuid_string-to_uuid_string lib id h reads =
    ap uuid_parsed (ap (λ u. lib.uuid_parse (lib.uuid_string u)) (to_uuid_eq id h) ∙ reads)
    ∙ ap ok (from_uuid_eq id h)
