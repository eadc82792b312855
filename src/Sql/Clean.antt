-- ===== src/Sql/Clean.antt =====
-- Texts of harmless bytes, and how the functions on texts carry them.
use mathlib.Core.List.{reverse, reverse_aux}
use ais_pkg.Prelude.{
  ℕ, zero, suc, ◌<◌, ◌≤◌, ◌≡◌, refl, arith, Bool, true, false, ◌&&◌, ◌||◌, List, [], ◌∷◌, ◌++◌, inl,
  inr, Bool-cases, leb, ◌==◌, length, take, drop, if◌then◌else◌, All,
}
use ais_pkg.Prelude.Text.{Text, trim_space, strip, space_len, last_space_len, split, onto_first}
use ais_pkg.Sql.Words.{is_word_char, fields_loop, fields, flush}

-- A byte of an identifier, a dot, a comma, ASCII white space, or a byte of a rune beyond ASCII: no
-- quote, bracket, operator, semicolon or comment sign of SQL.
abbrev pub is_harmless : ℕ → Bool
is_harmless c =
    is_word_char c || c == b'.' || c == b',' || c == 32 || (leb 9 c && leb c 13) || leb 128 c

-- All bytes are harmless.
abbrev pub Harmless : Text → Type 0
Harmless = All (λ c. is_harmless c ≡ true)

pub Harmless-append : (s t : Text) → Harmless s → Harmless t → Harmless (s ++ t)
Harmless-append [] t hs ht = ht
Harmless-append (c ∷ s) t hs ht = (hs.0, Harmless-append s t hs.1 ht)

Harmless-left : (s t : Text) → Harmless (s ++ t) → Harmless s
Harmless-left [] t h = tt
Harmless-left (c ∷ s) t h = (h.0, Harmless-left s t h.1)

Harmless-right : (s t : Text) → Harmless (s ++ t) → Harmless t
Harmless-right [] t h = h
Harmless-right (c ∷ s) t h = Harmless-right s t h.1

Harmless-take_drop : (n : ℕ) (s : Text) → Harmless (take n s) → Harmless (drop n s) → Harmless s
Harmless-take_drop zero s h k = k
Harmless-take_drop (suc n) [] h k = tt
Harmless-take_drop (suc n) (c ∷ s) h k = (h.0, Harmless-take_drop n s h.1 k)

Harmless-reverse_aux : (s t : Text) → Harmless (reverse_aux s t) → Harmless s × Harmless t
Harmless-reverse_aux [] t h = (tt, h)
Harmless-reverse_aux (c ∷ s) t h =
    let (rest, last) = Harmless-reverse_aux s (c ∷ t) h in ((last.0, rest), last.1)

high : (c : ℕ) → leb 128 c ≡ true → is_harmless c ≡ true
high c h = ground arith

low : (c : ℕ) → (c == 32 || (leb 9 c && leb c 13)) ≡ true → is_harmless c ≡ true
low c h = ground arith

take-if :
    (b : Bool) (n m : ℕ) (s : Text)
    → (b ≡ true → Harmless (take n s))
    → Harmless (take m s)
    → Harmless (take (if b then n else m) s)
take-if true n m s h k = h refl
take-if false n m s h k = k

blank : (c : ℕ) → (c == 32 || (leb 9 c && leb c 13)) ≡ true → Harmless (c ∷ [])
blank c e = (low c e, tt)

wide : (a b : ℕ) → (a == 0xC2 && (b == 0x85 || b == 0xA0)) ≡ true → Harmless (a ∷ b ∷ [])
wide a b e = (high a (ground arith), (high b (ground arith), tt))

ogham : (a b c : ℕ) → (a == 0xE1 && b == 0x9A && c == 0x80) ≡ true → Harmless (a ∷ b ∷ c ∷ [])
ogham a b c e = (high a (ground arith), (high b (ground arith), (high c (ground arith), tt)))

general :
    (a b c : ℕ)
    → (a == 0xE2
        && b == 0x80
        && ((leb 0x80 c && leb c 0x8A) || c == 0xA8 || c == 0xA9 || c == 0xAF))
      ≡ true
    → Harmless (a ∷ b ∷ c ∷ [])
general a b c e = (high a (ground arith), (high b (ground arith), (high c (ground arith), tt)))

ideographic :
    (a b c : ℕ)
    → ((a == 0xE2 && b == 0x81 && c == 0x9F) || (a == 0xE3 && b == 0x80 && c == 0x80)) ≡ true
    → Harmless (a ∷ b ∷ c ∷ [])
ideographic a b c e = (high a (ground arith), (high b (ground arith), (high c (ground arith), tt)))

-- The white space at the start is harmless.
space_len-Harmless : (s : Text) → Harmless (take (space_len s) s)
unfolding space_len
space_len-Harmless [] = tt
space_len-Harmless (a ∷ []) = take-if _ 1 0 (a ∷ []) (blank a) tt
space_len-Harmless (a ∷ b ∷ []) =
    take-if _ 1 _ (a ∷ b ∷ []) (blank a) (take-if _ 2 0 (a ∷ b ∷ []) (wide a b) tt)
space_len-Harmless (a ∷ b ∷ c ∷ s) = take-if _ 1 _ (a ∷ b ∷ c ∷ s) (blank a) (
    take-if _ 2 _ (a ∷ b ∷ c ∷ s) (wide a b) (
      take-if _ 3 _ (a ∷ b ∷ c ∷ s) (ogham a b c) (
        take-if _ 3 _ (a ∷ b ∷ c ∷ s) (general a b c)
          (take-if _ 3 0 (a ∷ b ∷ c ∷ s) (ideographic a b c) tt))))

three : (a b c : ℕ) → (space_len (a ∷ b ∷ c ∷ []) == 3) ≡ true → Harmless (a ∷ b ∷ c ∷ [])
three a b c e = rw eq_three at (space_len-Harmless (a ∷ b ∷ c ∷ []))
  where
    eq_three : space_len (a ∷ b ∷ c ∷ []) ≡ 3
    eq_three = ground arith

last_wide : (c b : ℕ) → (b == 0xC2 && (c == 0x85 || c == 0xA0)) ≡ true → Harmless (c ∷ b ∷ [])
last_wide c b e = (high c (ground arith), (high b (ground arith), tt))

-- And so is that at the end, which comes first in the reversed text.
last_space_len-Harmless : (s : Text) → Harmless (take (last_space_len s) s)
unfolding last_space_len
last_space_len-Harmless [] = tt
last_space_len-Harmless (c ∷ []) = space_len-Harmless (c ∷ [])
last_space_len-Harmless (c ∷ b ∷ []) =
    take-if _ 1 _ (c ∷ b ∷ []) (blank c) (take-if _ 2 0 (c ∷ b ∷ []) (last_wide c b) tt)
last_space_len-Harmless (c ∷ b ∷ a ∷ s) = take-if _ 1 _ (c ∷ b ∷ a ∷ s) (blank c) (
    take-if _ 2 _ (c ∷ b ∷ a ∷ s) (last_wide c b) (
      take-if _ 3 0 (c ∷ b ∷ a ∷ s) (λ e. let h = three a b c e in (h.1.1.0, (h.1.0, (h.0, tt))))
        tt))

strip-Harmless :
    (width : Text → ℕ) (f : ℕ) (s : Text)
    → ((t : Text) → Harmless (take (width t) t))
    → Harmless (strip width f s)
    → Harmless s
unfolding strip
strip-Harmless width zero s white h = h
strip-Harmless width (suc f) s white h =
    stripped (width s) (white s) (λ k. strip-Harmless width f (drop (suc k) s) white) h
  where
    stripped :
        (w : ℕ)
        → Harmless (take w s)
        → ((k : ℕ) → Harmless (strip width f (drop (suc k) s)) → Harmless (drop (suc k) s))
        → Harmless (elim w [ zero ↦ s | suc k ↦ strip width f (drop (suc k) s) ])
        → Harmless s
    stripped zero t rest h = h
    stripped (suc k) t rest h = Harmless-take_drop (suc k) s t (rest k h)

Harmless-reverse : (s : Text) → Harmless (reverse s) → Harmless s
Harmless-reverse s h = (Harmless-reverse_aux s [] h).0

-- A text is harmless if its trimmed form is.
pub trim_space-Harmless : (s : Text) → Harmless (trim_space s) → Harmless s
unfolding trim_space
trim_space-Harmless s h =
    let t = strip space_len (length s) s in
    strip-Harmless space_len (length s) s space_len-Harmless (
      Harmless-reverse t (
        strip-Harmless last_space_len (length t) (reverse t) last_space_len-Harmless
          (Harmless-reverse (strip last_space_len (length t) (reverse t)) h)))

-- A text is harmless if its parts between commas are.
pub split-Harmless : (s : Text) → All Harmless (split b',' s) → Harmless s
unfolding split
split-Harmless [] h = tt
split-Harmless (c ∷ s) h = elim (Bool-cases (c == b',')) [
  | inl e ↦ (ground arith, split-Harmless s (rw e at h).1)
  | inr e ↦ onto c (split b',' s) (λ k. split-Harmless s k) (rw e at h)
]
  where
    onto :
        (c : ℕ) (ps : List Text)
        → (All Harmless ps → Harmless s)
        → All Harmless (onto_first c ps)
        → Harmless (c ∷ s)
    onto c [] rest h = (h.0.0, rest tt)
    onto c (p ∷ ps) rest h = (h.0.0, rest (h.0.1, h.1))

flush-Harmless :
    (current : Text) (rest : List Text)
    → All Harmless (flush current rest)
    → Harmless current × All Harmless rest
flush-Harmless [] rest h = (tt, h)
flush-Harmless (c ∷ current) rest h = h

fields_loop-Harmless :
    (f : ℕ) (s current : Text)
    → length s < f
    → All Harmless (fields_loop f s current)
    → Harmless current × Harmless s
unfolding fields_loop
fields_loop-Harmless zero s current lt h = absurd (omega arith)
fields_loop-Harmless (suc f) [] current lt h = ((flush-Harmless current [] h).0, tt)
fields_loop-Harmless (suc f) (c ∷ s) current lt h =
    next (space_len (c ∷ s)) (space_len-Harmless (c ∷ s))
      (fields_loop-Harmless f s (current ++ c ∷ []) (omega arith))
      (λ k. fields_loop-Harmless f (drop k s) [] (drop_lt k)) h
  where
    drop_le : (k : ℕ) (t : Text) → length (drop k t) ≤ length t
    drop_le zero t = omega arith
    drop_le (suc k) [] = omega arith
    drop_le (suc k) (x ∷ t) = omega (arith, drop_le k t)

    drop_lt : (k : ℕ) → length (drop k s) < f
    drop_lt k = omega (arith, drop_le k s, lt)

    next :
        (w : ℕ)
        → Harmless (take w (c ∷ s))
        → (All Harmless (fields_loop f s (current ++ c ∷ []))
            → Harmless (current ++ c ∷ []) × Harmless s)
        → ((k : ℕ) → All Harmless (fields_loop f (drop k s) []) → Harmless [] × Harmless (drop k s))
        → All Harmless (elim w [
          | zero ↦ fields_loop f s (current ++ c ∷ [])
          | suc k ↦ flush current (fields_loop f (drop k s) [])
        ])
        → Harmless current × Harmless (c ∷ s)
    next zero t word white h =
        let (own, rest) = word h in
        (Harmless-left current (c ∷ []) own, ((Harmless-right current (c ∷ []) own).0, rest))
    next (suc k) t word white h =
        let (own, rest) = flush-Harmless current (fields_loop f (drop k s) []) h in
        (own, Harmless-take_drop (suc k) (c ∷ s) t (white k rest).1)

-- A text is harmless if its fields are.
pub fields-Harmless : (s : Text) → All Harmless (fields s) → Harmless s
unfolding fields
fields-Harmless s h = (fields_loop-Harmless (suc (length s)) s [] (omega arith) h).1
