-- ===== src/Sql/Words.antt =====
-- repository/validation.go: the search for dangerous keywords, and the parts of package strings that
-- it uses. `to_upper` stands for strings.ToUpper.
use ais_pkg.Prelude.{
  ℕ, zero, suc, ◌+◌, Bool, true, false, not, ◌&&◌, ◌||◌, List, [], ◌∷◌, ◌++◌, Option, some, none,
  Result, guard, is_empty, any, length, drop, leb, ◌==◌, if◌then◌else◌,
}
use ais_pkg.Prelude.Text.{Text, codes, text_eq, has_prefix, space_len}

abbrev pub shifted : Option ℕ → Option ℕ
shifted none = none
shifted (some i) = some (suc i)

-- strings.Index; `none` is -1
unfoldable pub index : Text → Text → Option ℕ
index [] sub = if is_empty sub then some 0 else none
index (c ∷ s) sub =
    let rest = shifted (index s sub) in if has_prefix (c ∷ s) sub then some 0 else rest

abbrev pub is_found : Option ℕ → Bool
is_found none = false
is_found (some i) = true

-- strings.Contains
unfoldable pub contains : Text → Text → Bool
unfolding index
contains s sub = is_found (index s sub)

-- isWordChar
abbrev pub is_word_char : ℕ → Bool
is_word_char c =
    (leb b'A' c && leb c b'Z')
    || (leb b'a' c && leb c b'z')
    || (leb b'0' c && leb c b'9')
    || c == b'_'

abbrev pub nth : ℕ → Text → Option ℕ
nth i [] = none
nth zero (c ∷ s) = some c
nth (suc i) (c ∷ s) = nth i s

-- The byte before the index, if there is one.
abbrev pub before : ℕ → Text → Option ℕ
before zero s = none
before (suc i) s = nth i s

abbrev pub is_boundary : Option ℕ → Bool
is_boundary none = true
is_boundary (some c) = not (is_word_char c)

abbrev pub stands_alone : Text → Text → Option ℕ → Bool
stands_alone text keyword none = false
stands_alone text keyword (some i) =
    is_boundary (before i text) && is_boundary (nth (i + length keyword) text)

-- The keywords that isKeywordMatch looks for anywhere.
abbrev pub is_symbol : Text → Bool
is_symbol keyword =
    text_eq keyword (codes "--")
    || text_eq keyword (codes "/*")
    || text_eq keyword (codes "*/")
    || text_eq keyword (codes ";")

-- isKeywordMatch
unfoldable pub is_keyword_match : Text → Text → Bool
unfolding contains index
is_keyword_match text keyword =
    if is_symbol keyword
    then contains text keyword
    else stands_alone text keyword (index text keyword)

-- dangerousKeywords
unfoldable pub dangerous_keywords : List Text
dangerous_keywords =
    codes "DROP"
    ∷ codes "DELETE"
    ∷ codes "UPDATE"
    ∷ codes "INSERT"
    ∷ codes "TRUNCATE"
    ∷ codes "ALTER"
    ∷ codes "CREATE"
    ∷ codes "GRANT"
    ∷ codes "REVOKE"
    ∷ codes "EXEC"
    ∷ codes "EXECUTE"
    ∷ codes "UNION"
    ∷ codes "INTO"
    ∷ codes "OUTFILE"
    ∷ codes "LOAD_FILE"
    ∷ codes "DUMPFILE"
    ∷ codes "--"
    ∷ codes "/*"
    ∷ codes "*/"
    ∷ codes ";"
    ∷ codes "SLEEP"
    ∷ codes "BENCHMARK"
    ∷ []

-- The Reason of a ValidationError.
pub data SqlReason : Type 0 where
  dangerous_keyword invalid_format invalid_column invalid_direction : SqlReason
  missing_join_keyword missing_on_clause invalid_join_type : SqlReason

-- ValidationError, without its texts; the field is that of the caller.
pub record SqlError : Type 0 where
  pub value : Text
  pub reason : SqlReason

-- checkDangerousKeywords
unfoldable pub check_dangerous_keywords : (Text → Text) → Text → Result SqlError (Unit {0})
unfolding is_keyword_match dangerous_keywords
check_dangerous_keywords to_upper value =
    guard (not (any (is_keyword_match (to_upper value)) dangerous_keywords))
      (record { value = value; reason = dangerous_keyword })

abbrev pub flush : Text → List Text → List Text
flush current rest = if is_empty current then rest else current ∷ rest

-- The loop of strings.Fields over the bytes that are left, with the field that has begun. Each round
-- drops a byte or more, so a fuel above the length is enough.
unfoldable pub fields_loop : ℕ → Text → Text → List Text
fields_loop zero s current = flush current []
fields_loop (suc f) [] current = flush current []
fields_loop (suc f) (c ∷ s) current = elim (space_len (c ∷ s)) [
  | zero ↦ fields_loop f s (current ++ c ∷ [])
  | suc k ↦ flush current (fields_loop f (drop k s) [])
]

-- strings.Fields
unfoldable pub fields : Text → List Text
unfolding fields_loop space_len
fields s = fields_loop (suc (length s)) s []
