-- ===== src/Repository/Tenant.antt =====
-- repository/tenant_scope.go, tenant.go and error_helpers.go. A query is the list of its conditions
-- and the error that was added to it, as gorm.DB keeps them.
use ais_pkg.Prelude.{
  Bool, true, false, not, ◌&&◌, ◌||◌, List, [], ◌∷◌, ◌++◌, Option, some, none, Result, ok, err,
  guard, ◌>>=◌, ◌>>◌, if◌then◌else◌,
}
use ais_pkg.Prelude.Text.{Text, codes}
use ais_pkg.Prelude.Int.{ℤ}
use ais_pkg.Errors.Values.{
  GoError, biz, biz_caused, wrapped, validation, record_not_found, deadline_exceeded,
  context_canceled, code_invalid_argument, code_not_found, code_unauthenticated, code_internal,
  code_timeout, code_canceled,
}

-- tenantColumn and deptColumn
unfoldable pub tenant_column : Text
tenant_column = codes "tenant_id"

unfoldable pub dept_column : Text
dept_column = codes "dept_id"

-- TenantContext, with the fields that the scope reads
pub record TenantContext : Type 0 where
  pub tenant_id : Text
  pub dept_id : Option Text
  pub is_admin : Bool

-- What the repository knows of its model: whether TenantIgnored says so, and the result of
-- tenantFields, with whether there is a field for the department.
pub record ModelInfo : Type 0 where
  pub tenant_ignored : Bool
  pub tenant_fields : Result GoError Bool

-- A condition `column = ?`, or one of the caller.
pub data Condition (Q : Type 0) : Type 0 where
  equals : Text → Text → Condition Q
  given : Q → Condition Q

pub record Query (Q : Type 0) : Type 0 where
  pub conditions : List (Condition Q)
  pub failure : Option GoError

-- The error of a query after another one.
abbrev pub joined_error : Option GoError → GoError → Option GoError
joined_error none e = some e
joined_error (some e) e' = some (wrapped [] e')

module _ {Q : Type 0} where
  -- db.AddError: a second error is wrapped together with the text of the first one. Nothing reads
  -- that text, and it is left empty here.
  abbrev pub add_error : GoError → Query Q → Query Q
  add_error e db = record db { failure = joined_error db.failure e }

  -- db.Where
  abbrev pub where_also : Condition Q → Query Q → Query Q
  where_also c db = record db { conditions = db.conditions ++ c ∷ [] }

abbrev pub unauthenticated : GoError
unauthenticated = biz code_unauthenticated (codes "unauthenticated")

abbrev pub dept_missing : GoError
dept_missing = biz code_unauthenticated (codes "non-admin user must provide dept_id")

module _ {Q : Type 0} where
  abbrev pub scope_dept : Option Text → Query Q → Query Q
  scope_dept none db = add_error dept_missing db
  scope_dept (some dept) db = where_also (equals dept_column dept) db

  abbrev pub scope_fields : TenantContext → Result GoError Bool → Query Q → Query Q
  scope_fields tc (err e) db = add_error e db
  scope_fields tc (ok has_dept) db =
      let scoped = where_also (equals tenant_column tc.tenant_id) db in
      if not tc.is_admin && has_dept then scope_dept tc.dept_id scoped else scoped

  abbrev pub scope_tenant : ModelInfo → Option TenantContext → Query Q → Query Q
  scope_tenant info none db = add_error unauthenticated db
  scope_tenant info (some tc) db = scope_fields tc info.tenant_fields db

  -- applyTenantScope; the context holds a TenantContext or none
  unfoldable pub apply_tenant_scope : ModelInfo → Option TenantContext → Query Q → Query Q
  apply_tenant_scope info tenant db =
      if info.tenant_ignored then db else scope_tenant info tenant db

-- The two fields of a model, as gorm sets them.
pub record Scoped : Type 0 where
  pub tenant : Text
  pub dept : Option Text

abbrev pub set_dept : Option Text → Scoped → Scoped
set_dept none m = m
set_dept (some dept) m = record m { dept = some dept }

abbrev pub has_dept_id : Option Text → Bool
has_dept_id none = false
has_dept_id (some dept) = true

abbrev pub fill_fields : TenantContext → Bool → Scoped → Result GoError Scoped
fill_fields tc false m = ok (record m { tenant = tc.tenant_id })
fill_fields tc true m = do
  guard (tc.is_admin || has_dept_id tc.dept_id) dept_missing
  ok (set_dept tc.dept_id (record m { tenant = tc.tenant_id }))

abbrev pub fill_tenant : ModelInfo → Option TenantContext → Scoped → Result GoError Scoped
fill_tenant info none m = err unauthenticated
fill_tenant info (some tc) m = info.tenant_fields >>= λ has_dept. fill_fields tc has_dept m

-- setTenantFields, for fields that gorm can set to an id
unfoldable pub set_tenant_fields : ModelInfo → Option TenantContext → Scoped → Result GoError Scoped
set_tenant_fields info tenant m = if info.tenant_ignored then ok m else fill_tenant info tenant m

-- errors.As for a ValidationError, and errors.Is for the three errors: they look through the chain.
unfoldable pub is_validation : GoError → Bool
is_validation (validation reason) = true
is_validation (wrapped m e) = is_validation e
is_validation (biz_caused c m cause) = is_validation cause
is_validation _ = false

unfoldable pub is_record_not_found : GoError → Bool
is_record_not_found record_not_found = true
is_record_not_found (wrapped m e) = is_record_not_found e
is_record_not_found (biz_caused c m cause) = is_record_not_found cause
is_record_not_found _ = false

unfoldable pub is_deadline_exceeded : GoError → Bool
is_deadline_exceeded deadline_exceeded = true
is_deadline_exceeded (wrapped m e) = is_deadline_exceeded e
is_deadline_exceeded (biz_caused c m cause) = is_deadline_exceeded cause
is_deadline_exceeded _ = false

unfoldable pub is_context_canceled : GoError → Bool
is_context_canceled context_canceled = true
is_context_canceled (wrapped m e) = is_context_canceled e
is_context_canceled (biz_caused c m cause) = is_context_canceled cause
is_context_canceled _ = false

-- The switch of normalizeRepositoryError, for an error without a BizError in its chain.
abbrev pub normalized_code : GoError → ℤ
normalized_code e =
    if is_validation e
    then code_invalid_argument
    else if is_record_not_found e
    then code_not_found
    else if is_deadline_exceeded e
    then code_timeout
    else if is_context_canceled e
    then code_canceled
    else code_internal

-- The BizError itself that AsBizError finds.
unfoldable pub find_biz_error : GoError → Option GoError
find_biz_error (biz c m) = some (biz c m)
find_biz_error (biz_caused c m cause) = some (biz_caused c m cause)
find_biz_error (wrapped m e) = find_biz_error e
find_biz_error _ = none

abbrev pub normalized : GoError → Text → Option GoError → GoError
normalized e message none = biz_caused (normalized_code e) message e
normalized e message (some b) = b

-- normalizeRepositoryError of an error that is not nil
unfoldable pub normalize_repository_error : GoError → Text → GoError
unfolding is_validation is_record_not_found is_deadline_exceeded is_context_canceled find_biz_error
normalize_repository_error e message = normalized e message (find_biz_error e)
