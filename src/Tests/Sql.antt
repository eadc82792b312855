-- ===== src/Tests/Sql.antt =====
-- repository/validation.go on short fragments.
use ais_pkg.Prelude.{◌≡◌, refl, true, false, [], ◌∷◌, ◌++◌, ok, map}
use ais_pkg.Prelude.Text.{Text, codes, upper, trim_space, split, text_eq, has_prefix}
use ais_pkg.Sql.Words.{check_dangerous_keywords, is_keyword_match, fields}
use ais_pkg.Sql.Columns.{validate_column_name}
use ais_pkg.Sql.Checks.{validate_order_by, validate_select}
use ais_pkg.Sql.Clean.{Harmless}
use ais_pkg.Sql.OrderBy.{validate_order_by-Harmless}

abbrev to_upper : Text → Text
to_upper = map upper

abbrev order : Text
order = b'a' ∷ b' ' ∷ codes "desc" ++ b',' ∷ b' ' ∷ codes "t.b" ++ []

order_accepted : validate_order_by to_upper order ≡ ok tt
unfolding validate_order_by codes trim_space split fields check_dangerous_keywords
    validate_column_name text_eq has_prefix
order_accepted = refl

validate_order_by-Harmless_example : Harmless order
validate_order_by-Harmless_example = validate_order_by-Harmless to_upper order order_accepted

-- Only the first occurrence of a keyword counts.
union_hidden : is_keyword_match (codes "REUNIONS UNION") (codes "UNION") ≡ false
unfolding is_keyword_match codes text_eq has_prefix
union_hidden = refl

union_found : is_keyword_match (codes "A UNION B") (codes "UNION") ≡ true
unfolding is_keyword_match codes text_eq has_prefix
union_found = refl

-- A column is not looked at behind the name of an aggregate function.
aggregate_accepted : validate_select to_upper (codes "MAX(1)||'x'" ∷ []) ≡ ok tt
unfolding validate_select codes trim_space text_eq has_prefix
aggregate_accepted = refl

alias_accepted : validate_column_name (codes "t.a AS b") ≡ true
unfolding validate_column_name codes trim_space
alias_accepted = refl
