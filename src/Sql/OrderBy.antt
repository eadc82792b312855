-- ===== src/Sql/OrderBy.antt =====
-- What ValidateOrderBy of repository/validation.go lets through.
use ais_pkg.Prelude.{
  ℕ, ◌≡◌, refl, arith, Bool, true, false, ◌&&◌, ◌==◌, List, [], ◌∷◌, Option, some, none, inl, inr,
  Bool-cases, Result, ok, err, guard, ◌>>=◌, is_empty, any, if◌then◌else◌, All,
}
use ais_pkg.Prelude.Text.{Text, codes, text_eq, text_eq→eq, trim_space, split}
use ais_pkg.Sql.Words.{is_word_char, fields, check_dangerous_keywords}
use ais_pkg.Sql.Columns.{
  is_start, is_blank, skip_while, skip_ident, skip_blanks, skip_as, ◌and_then◌, is_end, match_alias,
  match_qualified, match_column, validate_column_name,
}
use ais_pkg.Sql.Checks.{
  order_directions, check_fields, validate_single_order_by, check_parts, validate_order_by,
}
use ais_pkg.Sql.Clean.{is_harmless, Harmless, trim_space-Harmless, split-Harmless, fields-Harmless}

-- A step that goes over harmless bytes only.
abbrev Passes : (Text → Option Text) → Type 0
Passes step = (s t : Text) → step s ≡ some t → Harmless t → Harmless s

skip_while-Harmless :
    (p : ℕ → Bool)
    → ((c : ℕ) → p c ≡ true → is_harmless c ≡ true)
    → (s : Text) → Harmless (skip_while p s)
    → Harmless s
skip_while-Harmless p good [] h = tt
skip_while-Harmless p good (c ∷ s) h = elim (Bool-cases (p c)) [
  | inl e ↦ (good c e, skip_while-Harmless p good s (rw e at h))
  | inr e ↦ rw e at h
]

word_good : (c : ℕ) → is_word_char c ≡ true → is_harmless c ≡ true
word_good c e = ground arith

blank_good : (c : ℕ) → is_blank c ≡ true → is_harmless c ≡ true
blank_good c e = ground arith

start_good : (c : ℕ) → is_start c ≡ true → is_harmless c ≡ true
start_good c e = ground arith

if_some : (b : Bool) (s t : Text) → (if b then some s else none) ≡ some t → (b ≡ true) × (s ≡ t)
if_some true s t e = (refl, cc)
if_some false s t e = absurd (cc)

skip_ident-Passes : Passes skip_ident
skip_ident-Passes [] t e h = absurd (cc)
skip_ident-Passes (c ∷ s) t e h =
    let (b, r) = if_some (is_start c) (skip_while is_word_char s) t e in
    (start_good c b, skip_while-Harmless is_word_char word_good s (rw r h))

skip_blanks-Passes : Passes skip_blanks
skip_blanks-Passes [] t e h = absurd (cc)
skip_blanks-Passes (c ∷ s) t e h =
    let (b, r) = if_some (is_blank c) (skip_while is_blank s) t e in
    (blank_good c b, skip_while-Harmless is_blank blank_good s (rw r h))

skip_as-Passes : Passes skip_as
skip_as-Passes [] t e h = absurd (cc)
skip_as-Passes (a ∷ []) t e h = absurd (cc)
skip_as-Passes (a ∷ b ∷ s) t e h =
    let (k, r) = if_some (a == b'A' && b == b'S') s t e in (first a b k, (second a b k, rw r h))
  where
    first : (a b : ℕ) → (a == b'A' && b == b'S') ≡ true → is_harmless a ≡ true
    first a b k = ground arith

    second : (a b : ℕ) → (a == b'A' && b == b'S') ≡ true → is_harmless b ≡ true
    second a b k = ground arith

and_then-some :
    (o : Option Text) (f : Text → Option Text) (t : Text)
    → (o and_then f) ≡ some t
    → (u : Text) × ((o ≡ some u) × (f u ≡ some t))
and_then-some none f t e = absurd (cc)
and_then-some (some u) f t e = (u, (refl, e))

is_end-some : (o : Option Text) → is_end o ≡ true → o ≡ some []
is_end-some none e = absurd (cc)
is_end-some (some []) e = refl
is_end-some (some (c ∷ s)) e = absurd (cc)

match_alias-Harmless : (s : Text) → match_alias s ≡ true → Harmless s
match_alias-Harmless [] e = tt
match_alias-Harmless (c ∷ s) e =
    let all =
      is_end-some (skip_blanks (c ∷ s) and_then skip_as and_then skip_blanks and_then skip_ident)
        e in
    let (w, (e3, e4)) =
      and_then-some (skip_blanks (c ∷ s) and_then skip_as and_then skip_blanks) skip_ident [] all in
    let (v, (e2, e5)) = and_then-some (skip_blanks (c ∷ s) and_then skip_as) skip_blanks w e3 in
    let (u, (e1, e6)) = and_then-some (skip_blanks (c ∷ s)) skip_as v e2 in
    skip_blanks-Passes (c ∷ s) u e1
      (skip_as-Passes u v e6 (skip_blanks-Passes v w e5 (skip_ident-Passes w [] e4 tt)))

-- The identifier that a pattern starts with, and what it goes on with.
ident-Harmless :
    (rest : Text → Bool) (s : Text)
    → ((t : Text) → rest t ≡ true → Harmless t)
    → elim (skip_ident s) [ none ↦ false | some t ↦ rest t ] ≡ true
    → Harmless s
ident-Harmless rest s tail e = after (skip_ident s) refl e
  where
    after :
        (o : Option Text)
        → skip_ident s ≡ o
        → elim o [ none ↦ false | some t ↦ rest t ] ≡ true
        → Harmless s
    after none q e = absurd (cc)
    after (some t) q e = skip_ident-Passes s t q (tail t e)

match_qualified-Harmless : (s : Text) → match_qualified s ≡ true → Harmless s
match_qualified-Harmless [] e = tt
match_qualified-Harmless (c ∷ s) e = elim (Bool-cases (c == b'.')) [
  | inl k ↦ (ground arith, ident-Harmless match_alias s match_alias-Harmless (rw k at e))
  | inr k ↦ match_alias-Harmless (c ∷ s) (rw k at e)
]

match_column-Harmless : (s : Text) → match_column s ≡ true → Harmless s
unfolding match_column
match_column-Harmless s e = ident-Harmless match_qualified s match_qualified-Harmless e

pub validate_column_name-Harmless : (s : Text) → validate_column_name s ≡ true → Harmless s
unfolding validate_column_name
validate_column_name-Harmless s e = trim_space-Harmless s (named (is_empty (trim_space s)) e)
  where
    named :
        (b : Bool)
        → (if b then false else match_column (trim_space s)) ≡ true
        → Harmless (trim_space s)
    named true e = absurd (cc)
    named false e = match_column-Harmless (trim_space s) e

-- A direction is one of four words.
direction-Harmless :
    (d : Text) (words : List Text) → All Harmless words → any (text_eq d) words ≡ true → Harmless d
direction-Harmless d [] good e = absurd (cc)
direction-Harmless d (w ∷ words) good e = elim (Bool-cases (text_eq d w)) [
  | inl k ↦ rw (text_eq→eq d w k) good.0
  | inr k ↦ direction-Harmless d words good.1 (rw k at e)
]

directions-Harmless : All Harmless order_directions
unfolding order_directions codes
directions-Harmless = (
  (refl, (refl, (refl, tt))),
  (
    (refl, (refl, (refl, (refl, tt)))),
    ((refl, (refl, (refl, tt))), ((refl, (refl, (refl, (refl, tt)))), tt)),
  ),
)

guard_ok : {E : Type 0} (b : Bool) (e : E) → guard b e ≡ ok tt → b ≡ true
guard_ok true e h = refl
guard_ok false e h = absurd (cc)

then_ok :
    {E : Type 0} (r : Result E (Unit {0})) (k : Unit {0} → Result E (Unit {0}))
    → (r >>= k) ≡ ok tt
    → (r ≡ ok tt) × (k tt ≡ ok tt)
then_ok (ok tt) k h = (refl, h)
then_ok (err e) k h = absurd (cc)

check_fields-Harmless :
    (s : Text) (parts : List Text) → check_fields s parts ≡ ok tt → All Harmless parts
check_fields-Harmless s [] e = absurd (cc)
check_fields-Harmless s (column ∷ []) e =
    (validate_column_name-Harmless column (guard_ok (validate_column_name column) _ e), tt)
check_fields-Harmless s (column ∷ direction ∷ []) e =
    let (valid, rest) = then_ok (guard (validate_column_name column) _) _ e in
    (
      validate_column_name-Harmless column (guard_ok (validate_column_name column) _ valid),
      (
        direction-Harmless direction order_directions directions-Harmless
            (guard_ok (any (text_eq direction) order_directions) _ rest),
        tt,
      ),
    )
check_fields-Harmless s (column ∷ direction ∷ more ∷ parts) e = absurd (cc)

validate_single_order_by-Harmless : (s : Text) → validate_single_order_by s ≡ ok tt → Harmless s
unfolding validate_single_order_by
validate_single_order_by-Harmless [] e = tt
validate_single_order_by-Harmless (c ∷ s) e =
    fields-Harmless (c ∷ s) (check_fields-Harmless (c ∷ s) (fields (c ∷ s)) e)

check_parts-Harmless : (parts : List Text) → check_parts parts ≡ ok tt → All Harmless parts
check_parts-Harmless [] e = tt
check_parts-Harmless (part ∷ parts) e =
    let (one, rest) = then_ok (validate_single_order_by (trim_space part)) _ e in
    (
      trim_space-Harmless part (validate_single_order_by-Harmless (trim_space part) one),
      check_parts-Harmless parts rest,
    )

empty-Harmless : (s : Text) → is_empty s ≡ true → Harmless s
empty-Harmless [] e = tt
empty-Harmless (c ∷ s) e = absurd (cc)

-- An ORDER BY text that ValidateOrderBy accepts, under any strings.ToUpper, has only bytes of
-- identifiers, dots, commas, white space and runes beyond ASCII: no quote, bracket, semicolon,
-- operator or comment sign.
pub validate_order_by-Harmless :
    (to_upper : Text → Text) (s : Text) → validate_order_by to_upper s ≡ ok tt → Harmless s
unfolding validate_order_by
validate_order_by-Harmless to_upper s e = elim (Bool-cases (is_empty (trim_space s))) [
  | inl k ↦ trim_space-Harmless s (empty-Harmless (trim_space s) k)
  | inr k ↦
      let (_, parts) = then_ok (check_dangerous_keywords to_upper s) _ (rw k at e) in
      split-Harmless s (check_parts-Harmless (split b',' s) parts)
]
