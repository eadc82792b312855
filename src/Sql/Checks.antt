-- ===== src/Sql/Checks.antt =====
-- repository/validation.go: ValidateOrderBy, ValidateSelect and ValidateJoins.
use ais_pkg.Prelude.{
  Bool, ◌||◌, List, [], ◌∷◌, Result, ok, err, guard, ◌>>=◌, ◌>>◌, is_empty, any, if◌then◌else◌,
}
use ais_pkg.Prelude.Text.{Text, codes, text_eq, trim_space, split, has_prefix}
use ais_pkg.Sql.Words.{
  SqlError, SqlReason, invalid_format, invalid_column, invalid_direction, missing_join_keyword,
  missing_on_clause, invalid_join_type, check_dangerous_keywords, contains, fields,
}
use ais_pkg.Sql.Columns.{validate_column_name}

-- orderDirections
unfoldable pub order_directions : List Text
order_directions = codes "ASC" ∷ codes "DESC" ∷ codes "asc" ∷ codes "desc" ∷ []

abbrev pub reject : Text → SqlReason → SqlError
reject value reason = record { value = value; reason = reason }

-- The part of validateSingleOrderBy after strings.Fields.
abbrev pub check_fields : Text → List Text → Result SqlError (Unit {0})
check_fields order_by (column ∷ []) =
    guard (validate_column_name column) (reject order_by invalid_column)
check_fields order_by (column ∷ direction ∷ []) = do
  guard (validate_column_name column) (reject order_by invalid_column)
  guard (any (text_eq direction) order_directions) (reject order_by invalid_direction)
check_fields order_by _ = err (reject order_by invalid_format)

-- validateSingleOrderBy
unfoldable pub validate_single_order_by : Text → Result SqlError (Unit {0})
unfolding fields validate_column_name order_directions
validate_single_order_by order_by =
    if is_empty order_by then ok tt else check_fields order_by (fields order_by)

-- The loop of ValidateOrderBy.
abbrev pub check_parts : List Text → Result SqlError (Unit {0})
check_parts [] = ok tt
check_parts (part ∷ parts) = validate_single_order_by (trim_space part) >>= λ _. check_parts parts

-- ValidateOrderBy
unfoldable pub validate_order_by : (Text → Text) → Text → Result SqlError (Unit {0})
unfolding validate_single_order_by check_dangerous_keywords
validate_order_by to_upper order_by =
    if is_empty (trim_space order_by)
    then ok tt
    else check_dangerous_keywords to_upper order_by >>= λ _. check_parts (split b',' order_by)

-- isAggregateFunction
unfoldable pub is_aggregate_function : (Text → Text) → Text → Bool
is_aggregate_function to_upper sel = any (has_prefix (to_upper (trim_space sel))) (
    codes "COUNT("
    ∷ codes "SUM("
    ∷ codes "AVG("
    ∷ codes "MAX("
    ∷ codes "MIN("
    ∷ codes "GROUP_CONCAT("
    ∷ [])

abbrev pub check_select : (Text → Text) → Text → Result SqlError (Unit {0})
check_select to_upper sel =
    if is_empty sel
    then ok tt
    else check_dangerous_keywords to_upper sel >>= λ _.
        guard (is_aggregate_function to_upper sel || validate_column_name sel)
          (reject sel invalid_column)

-- ValidateSelect
unfoldable pub validate_select : (Text → Text) → List Text → Result SqlError (Unit {0})
unfolding is_aggregate_function check_dangerous_keywords validate_column_name
validate_select to_upper [] = ok tt
validate_select to_upper (sel ∷ selects) =
    check_select to_upper (trim_space sel) >>= λ _. validate_select to_upper selects

-- validateJoinSyntax
unfoldable pub validate_join_syntax : (Text → Text) → Text → Result SqlError (Unit {0})
validate_join_syntax to_upper join = do
  guard (contains (to_upper join) (codes "JOIN")) (reject join missing_join_keyword)
  guard (contains (to_upper join) (codes " ON ")) (reject join missing_on_clause)
  guard
      (any (contains (to_upper join)) (
        codes "INNER JOIN"
        ∷ codes "LEFT JOIN"
        ∷ codes "RIGHT JOIN"
        ∷ codes "FULL JOIN"
        ∷ codes "CROSS JOIN"
        ∷ codes "JOIN"
        ∷ []))
      (reject join invalid_join_type)

abbrev pub check_join : (Text → Text) → Text → Result SqlError (Unit {0})
check_join to_upper join =
    if is_empty join
    then ok tt
    else check_dangerous_keywords to_upper join >>= λ _. validate_join_syntax to_upper join

-- ValidateJoins
unfoldable pub validate_joins : (Text → Text) → List Text → Result SqlError (Unit {0})
unfolding validate_join_syntax check_dangerous_keywords
validate_joins to_upper [] = ok tt
validate_joins to_upper (join ∷ joins) =
    check_join to_upper (trim_space join) >>= λ _. validate_joins to_upper joins
