-- ===== src/Sql/Columns.antt =====
-- repository/validation.go and aggregate.go: the patterns of column names, matched by hand. After an
-- identifier neither pattern goes on with a byte of an identifier, so that the longest match is the
-- only one.
use ais_pkg.Prelude.{
  ℕ, Bool, true, false, not, ◌&&◌, ◌||◌, List, [], ◌∷◌, ◌++◌, Option, some, none, Result, guard,
  ◌>>◌, is_empty, any, leb, ◌==◌, if◌then◌else◌,
}
use ais_pkg.Prelude.Text.{Text, codes, text_eq, trim_space}
use ais_pkg.Errors.Values.{GoError, biz, code_invalid_argument}
use ais_pkg.Sql.Words.{is_word_char, contains}

-- [a-zA-Z_]
abbrev pub is_start : ℕ → Bool
is_start c = (leb b'A' c && leb c b'Z') || (leb b'a' c && leb c b'z') || c == b'_'

-- \s of the pattern
abbrev pub is_blank : ℕ → Bool
is_blank c = c == 9 || c == 10 || c == 12 || c == 13 || c == 32

abbrev pub skip_while : (ℕ → Bool) → Text → Text
skip_while p [] = []
skip_while p (c ∷ s) = if p c then skip_while p s else c ∷ s

-- What follows an identifier at the start.
abbrev pub skip_ident : Text → Option Text
skip_ident [] = none
skip_ident (c ∷ s) = if is_start c then some (skip_while is_word_char s) else none

-- What follows white space at the start.
abbrev pub skip_blanks : Text → Option Text
skip_blanks [] = none
skip_blanks (c ∷ s) = if is_blank c then some (skip_while is_blank s) else none

-- What follows "AS" at the start.
abbrev pub skip_as : Text → Option Text
skip_as (a ∷ s ∷ rest) = if a == b'A' && s == b'S' then some rest else none
skip_as _ = none

infixl 5 ◌and_then◌
abbrev pub ◌and_then◌ : Option Text → (Text → Option Text) → Option Text
none and_then f = none
some t and_then f = f t

abbrev pub is_end : Option Text → Bool
is_end none = false
is_end (some []) = true
is_end (some (c ∷ s)) = false

-- (\s+AS\s+ident)?$
abbrev pub match_alias : Text → Bool
match_alias [] = true
match_alias (c ∷ s) =
    is_end (skip_blanks (c ∷ s) and_then skip_as and_then skip_blanks and_then skip_ident)

-- (\.ident)? and the rest
abbrev pub match_qualified : Text → Bool
match_qualified [] = true
match_qualified (c ∷ s) =
    if c == b'.'
    then elim (skip_ident s) [ none ↦ false | some rest ↦ match_alias rest ]
    else match_alias (c ∷ s)

-- columnPattern.MatchString
unfoldable pub match_column : Text → Bool
match_column t = elim (skip_ident t) [ none ↦ false | some rest ↦ match_qualified rest ]

-- validateColumnName, without the text of its error
unfoldable pub validate_column_name : Text → Bool
unfolding match_column
validate_column_name column =
    let col = trim_space column in if is_empty col then false else match_column col

-- columnRegex.MatchString, and IsSafeColumnName
unfoldable pub is_safe_column_name : Text → Bool
is_safe_column_name t = is_end (skip_ident t)

-- sqlKeywordsBlocklist
unfoldable pub sql_keywords_blocklist : List Text
sql_keywords_blocklist =
    codes "SLEEP"
    ∷ codes "BENCHMARK"
    ∷ codes "LOAD_FILE"
    ∷ codes "OUTFILE"
    ∷ codes "DUMPFILE"
    ∷ codes "COUNT"
    ∷ codes "SUM"
    ∷ codes "AVG"
    ∷ codes "MAX"
    ∷ codes "MIN"
    ∷ codes "SELECT"
    ∷ codes "INSERT"
    ∷ codes "UPDATE"
    ∷ codes "DELETE"
    ∷ codes "DROP"
    ∷ codes "CREATE"
    ∷ codes "ALTER"
    ∷ codes "EXEC"
    ∷ codes "EXECUTE"
    ∷ codes "UNION"
    ∷ []

abbrev pub bad_column : Text → GoError
bad_column message = biz code_invalid_argument message

-- validateColumn
unfoldable pub validate_column : (Text → Text) → Text → Result GoError (Unit {0})
unfolding is_safe_column_name sql_keywords_blocklist
validate_column to_upper column = do
  guard (not (is_empty column)) (bad_column (codes "column cannot be empty"))
  guard (not (contains column (codes ".")))
      (bad_column (codes "column must not contain table qualifier"))
  guard (is_safe_column_name column) (bad_column (codes "invalid column name: " ++ column))
  guard (not (any (text_eq (to_upper column)) sql_keywords_blocklist))
      (bad_column (codes "column name conflicts with SQL keyword: " ++ column))

-- SanitizeColumnName; the bytes of a rune beyond ASCII are all dropped
unfoldable pub sanitize_column_name : Text → Text
sanitize_column_name [] = []
sanitize_column_name (c ∷ s) =
    let rest = sanitize_column_name s in if is_word_char c then c ∷ rest else rest
