-- ===== src/Tests/Ulid.antt =====
-- ulid on one ID, with libraries that know only that ID.
use ais_pkg.Prelude.{
  ℕ, suc, ◌≡◌, refl, arith, ◌<◌, ltb, [], ◌∷◌, ◌++◌, Option, some, none, ok, err, length,
  if◌then◌else◌,
}
use ais_pkg.Prelude.Text.{Text, text_eq}
use ais_pkg.Prelude.Int.{pos}
use ais_pkg.Ulid.Defs.{
  Ulid, Order, less, same, greater, Libraries, zero_id, bytes_of, string_of, value, scan,
  marshal_json, unmarshal_json, marshal_text, unmarshal_text, marshal_binary, unmarshal_binary,
}
use ais_pkg.Ulid.Generator.{EntropyLibrary, generate_batch}
use ais_pkg.Ulid.RoundTrip.{Reads, Base32, forms_read_back}
use ais_pkg.Ulid.Scanning.{Scanned, scan-Scanned}
use ais_pkg.Ulid.Batches.{Increasing, Monotone, generate_batch-Increasing}

abbrev id : Ulid
id = 1 ∷ 2 ∷ 3 ∷ 4 ∷ 5 ∷ 6 ∷ 7 ∷ 8 ∷ 9 ∷ 10 ∷ 11 ∷ 12 ∷ 13 ∷ 14 ∷ 15 ∷ 16 ∷ []

abbrev letters : Text
letters =
    b'0' ∷ b'1' ∷ b'H' ∷ b'N' ∷ b'3' ∷ b'K' ∷ b'8' ∷ b'X' ∷ b'9' ∷ b'F' ∷ b'Q' ∷ b'Z' ∷ b'M' ∷ b'6'
    ∷ b'Y' ∷ b'8' ∷ b'V' ∷ b'W' ∷ b'X' ∷ b'Q' ∷ b'R' ∷ b'2' ∷ b'J' ∷ b'N' ∷ b'P' ∷ b'T' ∷ []

-- The text between the quotes.
abbrev unquote_end : Text → Text
unquote_end [] = []
unquote_end (c ∷ []) = []
unquote_end (c ∷ d ∷ s) = c ∷ unquote_end (d ∷ s)

abbrev unquote : Text → Text
unquote [] = []
unquote (c ∷ s) = unquote_end s

unquote_end-append : (s : Text) → unquote_end (s ++ b'"' ∷ []) ≡ s
unquote_end-append [] = refl
unquote_end-append (c ∷ []) = refl
unquote_end-append (c ∷ d ∷ s) = cc (unquote_end-append (d ∷ s))

-- Lists of one number are in its order.
abbrev head : Ulid → ℕ
head [] = 0
head (c ∷ s) = c

abbrev by_head : Ulid → Ulid → Order
by_head a b = if ltb (head a) (head b) then less else if text_eq a b then same else greater

abbrev lib : Libraries
lib = record {
  compare = by_head;
  string = λ _. letters;
  parse = λ s. if text_eq s letters then ok id else err [];
  marshal_text = λ _. letters;
  unmarshal_text = λ old s. if text_eq s letters then (none, id) else (some [], old);
  marshal_binary = λ i. i;
  unmarshal_binary = λ old s. if text_eq s id then (none, id) else (some [], old);
  json_marshal = λ s. b'"' ∷ s ++ b'"' ∷ [];
  json_unmarshal = λ s. ok (unquote s);
  uuid_string = λ u. u;
  uuid_parse = λ u. ok u;
}

letters-Base32 : Base32 letters
letters-Base32 = (
  refl,
  (
    refl,
    (
      refl,
      (
        refl,
        (
          refl,
          (
            refl,
            (
              refl,
              (
                refl,
                (
                  refl,
                  (
                    refl,
                    (
                      refl,
                      (
                        refl,
                        (
                          refl,
                          (
                            refl,
                            (
                              refl,
                              (
                                refl,
                                (
                                  refl,
                                  (
                                    refl,
                                    (
                                      refl,
                                      (refl, (refl, (refl, (refl, (refl, (refl, (refl, tt))))))),
                                    ),
                                  ),
                                ),
                              ),
                            ),
                          ),
                        ),
                      ),
                    ),
                  ),
                ),
              ),
            ),
          ),
        ),
      ),
    ),
  ),
)

reads : Reads lib id
unfolding text_eq zero_id
reads = record {
  same→eq = λ h. absurd (cc);
  letters = letters-Base32;
  text_letters = letters-Base32;
  length-string = refl;
  length-marshal_text = refl;
  length-marshal_binary = refl;
  parse-string = refl;
  unmarshal_text-marshal_text = λ old. refl;
  unmarshal_binary-marshal_binary = λ old. refl;
  json_marshal-letters = λ s h. refl;
  json_unmarshal-letters = λ s h. cc (unquote_end-append s);
}

forms_read_back_example :
    (scan lib zero_id (value lib id) ≡ (none, id))
    × (scan lib zero_id (string_of (marshal_text lib id)) ≡ (none, id))
    × (unmarshal_json lib zero_id (marshal_json lib id) ≡ (none, id))
    × (unmarshal_text lib zero_id (marshal_text lib id) ≡ (none, id))
    × (unmarshal_binary lib zero_id (marshal_binary lib id) ≡ (none, id))
forms_read_back_example = forms_read_back lib id zero_id reads

binary_scanned : scan lib zero_id (bytes_of id) ≡ (none, id)
unfolding scan text_eq
binary_scanned = refl

scan-Scanned_example : Scanned lib zero_id id (bytes_of id)
scan-Scanned_example = scan-Scanned lib zero_id id (bytes_of id) binary_scanned

-- A source that counts.
abbrev counter : EntropyLibrary ℕ
counter = record {
  must_new = λ ms s. some (s ∷ [], suc s);
  is_monotonic = λ s. some s;
  monotonic = λ s. s;
  random = 0;
}

made_above :
    (s s' : ℕ) (i : Ulid)
    → Path (Option (Ulid × ℕ)) (some (s ∷ [], suc s)) (some (i, s'))
    → head i < s'
made_above s s' i e =
    let e1 : s ∷ [] ≡ i = cc in let e2 : suc s ≡ s' = cc in rw (← e1, ← e2) (omega arith)

below :
    (m s : ℕ) (low : Ulid)
    → m < s
    → (if ltb m s then less else if text_eq low (s ∷ []) then same else greater) ≡ less
below m s low h = ground arith

next_above :
    (s s' : ℕ) (low i : Ulid)
    → head low < s
    → Path (Option (Ulid × ℕ)) (some (s ∷ [], suc s)) (some (i, s'))
    → (by_head low i ≡ less) × (head low < s')
next_above s s' low i above e =
    let e1 : s ∷ [] ≡ i = cc in
    let e2 : suc s ≡ s' = cc in
    (rw (← e1) (below (head low) s low above), rw (← e2) (omega (arith, above)))

mono : Monotone lib counter 5
mono = record { Above = λ i s. head i < s; made = made_above; next = next_above }

made_three : generate_batch counter (pos 3) 5 7 ≡ some ((7 ∷ []) ∷ (8 ∷ []) ∷ (9 ∷ []) ∷ [], 10)
unfolding generate_batch
made_three = refl

generate_batch-Increasing_example :
    Increasing lib ((7 ∷ []) ∷ (8 ∷ []) ∷ (9 ∷ []) ∷ [])
    × (length {A = Ulid} ((7 ∷ []) ∷ (8 ∷ []) ∷ (9 ∷ []) ∷ []) ≡ 3)
generate_batch-Increasing_example =
    generate_batch-Increasing lib counter 3 5 7 10 ((7 ∷ []) ∷ (8 ∷ []) ∷ (9 ∷ []) ∷ []) mono
      made_three
