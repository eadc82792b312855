-- ===== src/Repository/Creation.antt =====
-- Records that a tenant creates lie inside the scope of the tenant's queries.
use ais_pkg.Prelude.{
  ◌≡◌, refl, arith, Bool, true, false, [], Option, some, none, Result, ok, err, ◌>>=◌,
  if◌then◌else◌, All,
}
use ais_pkg.Prelude.Text.{Text, codes, text_eq}
use ais_pkg.Errors.Values.{GoError}
use ais_pkg.Repository.Tenant.{
  tenant_column, dept_column, TenantContext, ModelInfo, Condition, equals, given, Query,
  scope_fields, scope_tenant, apply_tenant_scope, Scoped, fill_fields, fill_tenant,
  set_tenant_fields,
}

-- The value of a column of a record.
abbrev pub column : Scoped → Text → Option Text
column m c =
    if text_eq c tenant_column
    then some m.tenant
    else if text_eq c dept_column
    then m.dept
    else none

-- The record meets the condition.
abbrev pub Meets : {Q : Type 0} → Scoped → Condition Q → Type 0
Meets m (equals c v) = column m c ≡ some v
Meets m (given q) = ⊥

tenant_eq : text_eq tenant_column tenant_column ≡ true
unfolding tenant_column codes text_eq
tenant_eq = refl

dept_eq : (text_eq dept_column tenant_column ≡ false) × (text_eq dept_column dept_column ≡ true)
unfolding tenant_column dept_column codes text_eq
dept_eq = (refl, refl)

tenant_column_eq : (m : Scoped) (t : Text) → m.tenant ≡ t → column m tenant_column ≡ some t
tenant_column_eq m t h = rw (tenant_eq, h) refl

dept_column_eq : (m : Scoped) (d : Text) → m.dept ≡ some d → column m dept_column ≡ some d
dept_column_eq m d h = rw (dept_eq.0, dept_eq.1) h

-- The scope of a query without conditions adds only conditions that the record meets, and no error.
abbrev pub InScope : {Q : Type 0} → Scoped → Query Q → Type 0
InScope m db = All (Meets m) db.conditions × (db.failure ≡ none)

module _ (Q : Type 0) where
  abbrev pub no_query : Query Q
  no_query = record { conditions = []; failure = none }

  fill_fields-InScope :
      (t : Text) (o : Option Text) (a has_dept : Bool) (m m' : Scoped)
      → fill_fields (record { tenant_id = t; dept_id = o; is_admin = a }) has_dept m ≡ ok m'
      → InScope m' (
          scope_fields (record { tenant_id = t; dept_id = o; is_admin = a }) (ok has_dept) no_query)
  fill_fields-InScope t o true false m m' h = ((tenant_column_eq m' t (ground arith), tt), refl)
  fill_fields-InScope t o false false m m' h = ((tenant_column_eq m' t (ground arith), tt), refl)
  fill_fields-InScope t none true true m m' h = ((tenant_column_eq m' t (ground arith), tt), refl)
  fill_fields-InScope t (some d) true true m m' h =
      ((tenant_column_eq m' t (ground arith), tt), refl)
  fill_fields-InScope t none false true m m' h = cc
  fill_fields-InScope t (some d) false true m m' h =
      ((tenant_column_eq m' t (ground arith), (dept_column_eq m' d (ground arith), tt)), refl)

  fill_tenant-InScope :
      (info : ModelInfo) (tc : TenantContext) (r : Result GoError Bool) (m m' : Scoped)
      → (r >>= λ has_dept. fill_fields tc has_dept m) ≡ ok m'
      → InScope m' (scope_fields tc r no_query)
  fill_tenant-InScope info tc (err e) m m' h = cc
  fill_tenant-InScope info tc (ok has_dept) m m' h =
      fill_fields-InScope tc.tenant_id tc.dept_id tc.is_admin has_dept m m' h

  scope_if-InScope :
      (info : ModelInfo) (tenant : Option TenantContext) (m m' : Scoped) (ignored : Bool)
      → (if ignored then ok m else fill_tenant info tenant m) ≡ ok m'
      → InScope m' (if ignored then no_query else scope_tenant info tenant no_query)
  scope_if-InScope info tenant m m' true h = (tt, refl)
  scope_if-InScope info none m m' false h = cc
  scope_if-InScope info (some tc) m m' false h =
      fill_tenant-InScope info tc info.tenant_fields m m' h

  -- When setTenantFields succeeds on a record, a query that applyTenantScope scopes for the same
  -- context has no error, and the record meets each of the conditions that the scope adds: a user
  -- finds what the user has created.
  pub set_tenant_fields-InScope :
      (info : ModelInfo) (tenant : Option TenantContext) (m m' : Scoped)
      → set_tenant_fields info tenant m ≡ ok m'
      → InScope m' (apply_tenant_scope info tenant no_query)
  unfolding set_tenant_fields apply_tenant_scope
  set_tenant_fields-InScope info tenant m m' h =
      scope_if-InScope info tenant m m' info.tenant_ignored h
