-- ===== src/Prelude/Text.antt =====
-- Go strings and byte slices, as lists of bytes, with what the program uses of package strings.
use Prim.Native.Char.{code}
use Prim.Native.Nat.{ℕ, zero, suc, ◌+◌, ◌-◌}
use Prim.Native.String.{String}
use mathlib.Core.Path.{◌≡◌, refl}
use mathlib.Core.Logic.{◌↔◌, ◌≢◌}
use mathlib.Core.Bool.{Bool, true, false, ◌&&◌, ◌||◌}
use mathlib.Core.List.{List, [], ◌∷◌, ◌++◌, reverse}
use native.Mathlib.Omega.{arith}
use ais_pkg.Prelude.Tests.{leb, ◌==◌, if◌then◌else◌}
use ais_pkg.Prelude.Lists.{length, drop}

abbrev pub Text : Type 0
Text = List ℕ

-- The bytes of an ASCII literal.
unfoldable pub codes : String → Text
codes String.[] = []
codes (String.◌∷◌ c s) = code c ∷ codes s

-- s == t
unfoldable pub text_eq : Text → Text → Bool
text_eq [] [] = true
text_eq [] (y ∷ ys) = false
text_eq (x ∷ xs) [] = false
text_eq (x ∷ xs) (y ∷ ys) = x == y && text_eq xs ys

pub text_eq→eq : (s t : Text) → text_eq s t ≡ true → s ≡ t
unfolding text_eq
text_eq→eq [] [] h = refl
text_eq→eq [] (y ∷ ys) h = ground arith
text_eq→eq (x ∷ xs) [] h = ground arith
text_eq→eq (x ∷ xs) (y ∷ ys) h = ground (arith, text_eq→eq xs ys)

pub text_eq_refl : (s : Text) → text_eq s s ≡ true
unfolding text_eq
text_eq_refl [] = refl
text_eq_refl (x ∷ xs) = ground (arith, text_eq_refl xs)

pub text_eq_iff : (s t : Text) → (text_eq s t ≡ true) ↔ (s ≡ t)
text_eq_iff s t = (text_eq→eq s t, λ e. rw e (text_eq_refl t))

-- strings.HasPrefix(s, p)
unfoldable pub has_prefix : Text → Text → Bool
has_prefix s [] = true
has_prefix [] (c ∷ p) = false
has_prefix (b ∷ s) (c ∷ p) = b == c && has_prefix s p

-- How many bytes the white space at the start of `s` takes, 0 for none: unicode.IsSpace in UTF-8.
unfoldable pub space_len : Text → ℕ
space_len (a ∷ b ∷ c ∷ s) =
    if a == 32 || (leb 9 a && leb a 13)
    then 1
    else if a == 0xC2 && (b == 0x85 || b == 0xA0)
    then 2
    else if a == 0xE1 && b == 0x9A && c == 0x80
    then 3
    else if a == 0xE2
        && b == 0x80
        && ((leb 0x80 c && leb c 0x8A) || c == 0xA8 || c == 0xA9 || c == 0xAF)
    then 3
    else if (a == 0xE2 && b == 0x81 && c == 0x9F) || (a == 0xE3 && b == 0x80 && c == 0x80)
    then 3
    else 0
space_len (a ∷ b ∷ []) =
    if a == 32 || (leb 9 a && leb a 13)
    then 1
    else if a == 0xC2 && (b == 0x85 || b == 0xA0)
    then 2
    else 0
space_len (a ∷ []) = if a == 32 || (leb 9 a && leb a 13) then 1 else 0
space_len [] = 0

-- The same at the end, which is the start of the reversed text.
unfoldable pub last_space_len : Text → ℕ
unfolding space_len
last_space_len (c ∷ b ∷ a ∷ s) =
    if c == 32 || (leb 9 c && leb c 13)
    then 1
    else if b == 0xC2 && (c == 0x85 || c == 0xA0)
    then 2
    else if space_len (a ∷ b ∷ c ∷ []) == 3
    then 3
    else 0
last_space_len (c ∷ b ∷ []) =
    if c == 32 || (leb 9 c && leb c 13)
    then 1
    else if b == 0xC2 && (c == 0x85 || c == 0xA0)
    then 2
    else 0
last_space_len (c ∷ []) = space_len (c ∷ [])
last_space_len [] = 0

-- Each round drops one character, so a fuel of the text's length is enough.
unfoldable pub strip : (Text → ℕ) → ℕ → Text → Text
strip width zero s = s
strip width (suc f) s = elim (width s) [ zero ↦ s | suc k ↦ strip width f (drop (suc k) s) ]

-- strings.TrimSpace, bytes.TrimSpace
unfoldable pub trim_space : Text → Text
unfolding strip space_len last_space_len
trim_space s =
    let t = strip space_len (length s) s in reverse (strip last_space_len (length t) (reverse t))

-- unicode upper case of an ASCII letter
abbrev pub upper : ℕ → ℕ
upper c = if leb b'a' c && leb c b'z' then c - 32 else c

-- The first element of `split`, and the rest.
abbrev pub onto_first : ℕ → List Text → List Text
onto_first b [] = (b ∷ []) ∷ []
onto_first b (p ∷ ps) = (b ∷ p) ∷ ps

-- strings.Split(s, sep) for a separator of one byte
unfoldable pub split : ℕ → Text → List Text
split sep [] = [] ∷ []
split sep (b ∷ s) = let rest = split sep s in if b == sep then [] ∷ rest else onto_first b rest

-- strings.Join(parts, sep)
unfoldable pub join : ℕ → List Text → Text
join sep [] = []
join sep (p ∷ []) = p
join sep (p ∷ q ∷ ps) = p ++ sep ∷ join sep (q ∷ ps)

-- The text does not hold the byte.
abbrev pub Free : ℕ → Text → Type 0
Free sep [] = Unit {0}
Free sep (b ∷ s) = (b ≢ sep) × Free sep s

module _ (sep : ℕ) where
  pub Free-append : (s t : Text) → Free sep (s ++ t) ↔ (Free sep s × Free sep t)
  Free-append [] t = (λ h. (tt, h), λ h. h.1)
  Free-append (b ∷ s) t = (
    λ h. let (l, r) = (Free-append s t).0 h.1 in ((h.0, l), r),
    λ h. (h.0.0, (Free-append s t).1 (h.0.1, h.1)),
  )

  -- A field ends at the first separator: two texts that start with a field and a separator agree
  -- on the field and on the rest.
  pub field_split :
      (s t u v : Text) → Free sep s → Free sep t → s ++ sep ∷ u ≡ t ++ sep ∷ v → (s ≡ t) × (u ≡ v)
  field_split [] [] u v fs ft e = (refl, cc)
  field_split [] (c ∷ t) u v fs ft e = absurd (ft.0 (cc))
  field_split (b ∷ s) [] u v fs ft e = absurd (fs.0 (cc))
  field_split (b ∷ s) (c ∷ t) u v fs ft e =
      let (p, q) = field_split s t u v fs.1 ft.1 (cc) in (cc, q)

  -- How many separators a text holds.
  abbrev pub seps : Text → ℕ
  seps [] = 0
  seps (b ∷ s) = if b == sep then suc (seps s) else seps s

  pub seps-append : (s t : Text) → seps (s ++ t) ≡ seps s + seps t
  seps-append [] t = omega arith
  seps-append (b ∷ s) t = ground (arith, seps-append s t)

  pub seps_free : (s : Text) → Free sep s → seps s ≡ 0
  seps_free [] h = refl
  seps_free (b ∷ s) h = ground (arith, seps_free s h.1)

  pub free_of_seps : (s : Text) → seps s ≡ 0 → Free sep s
  free_of_seps [] h = tt
  free_of_seps (b ∷ s) h = (ground arith, free_of_seps s (ground arith))
