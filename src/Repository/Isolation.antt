-- ===== src/Repository/Isolation.antt =====
-- Isolation of tenants: what a scoped query demands, and that records are created inside the scope.
use ais_pkg.Prelude.{
  ◌≡◌, ◌≢◌, refl, Bool, true, false, not, ◌&&◌, List, [], ◌∷◌, ◌++◌, Option, some, none, Result, ok,
  err, if◌then◌else◌, inl, inr, ◌⊎◌,
}
use ais_pkg.Prelude.Text.{Text}
use ais_pkg.Errors.Values.{GoError}
use ais_pkg.Repository.Tenant.{
  tenant_column, dept_column, TenantContext, ModelInfo, Condition, equals, Query, joined_error,
  where_also, unauthenticated, dept_missing, scope_dept, scope_fields, scope_tenant,
  apply_tenant_scope,
}

-- The condition is among the query's.
abbrev pub Demands : {Q : Type 0} → Condition Q → List (Condition Q) → Type 0
Demands c [] = ⊥
Demands c (d ∷ ds) = (c ≡ d) ⊎ Demands c ds

Demands-last : {Q : Type 0} (c : Condition Q) (ds : List (Condition Q)) → Demands c (ds ++ c ∷ [])
Demands-last c [] = inl refl
Demands-last c (d ∷ ds) = inr (Demands-last c ds)

pub Demands-before :
    {Q : Type 0} (c d : Condition Q) (ds : List (Condition Q))
    → Demands c ds
    → Demands c (ds ++ d ∷ [])
Demands-before c d [] h = absurd h
Demands-before c d (e ∷ ds) h = elim h [ inl p ↦ inl p | inr q ↦ inr (Demands-before c d ds q) ]

pub joined_error-ne : (o : Option GoError) (e : GoError) → joined_error o e ≢ none
joined_error-ne none e = cc
joined_error-ne (some x) e = cc

-- The query is held to the tenant, and to the department where the model has one and the user is no
-- administrator.
pub record Isolated {Q : Type 0} (info : ModelInfo) (tenant : Option TenantContext) (db : Query Q)
    : Type 0 where
  pub context : TenantContext
  pub known : tenant ≡ some context
  pub has_dept : Bool
  pub fields : info.tenant_fields ≡ ok has_dept
  pub tenant_demanded : Demands (equals tenant_column context.tenant_id) db.conditions
  pub dept_demanded :
      (has_dept ≡ false)
      ⊎ (context.is_admin ≡ true)
      ⊎ ((dept : Text) × (context.dept_id ≡ some dept)
          × Demands (equals dept_column dept) db.conditions)

no_dept : (a has_dept : Bool) → (not a && has_dept) ≡ false → (has_dept ≡ false) ⊎ (a ≡ true)
no_dept true has_dept h = inr refl
no_dept false has_dept h = inl h

module _ {Q : Type 0} where
  scope_dept-Demands :
      (tc : TenantContext) (o : Option Text) (db : Query Q) (c : Condition Q)
      → (scope_dept o db).failure ≡ none
      → Demands c db.conditions
      → Demands c (scope_dept o db).conditions
        × ((dept : Text) × (o ≡ some dept)
            × Demands (equals dept_column dept) (scope_dept o db).conditions)
  scope_dept-Demands tc none db c h k = absurd (joined_error-ne db.failure dept_missing h)
  scope_dept-Demands tc (some dept) db c h k = (
    Demands-before c (equals dept_column dept) db.conditions k,
    (dept, refl, Demands-last (equals dept_column dept) db.conditions),
  )

  scope_if :
      (b : Bool) (tc : TenantContext) (db : Query Q) (c : Condition Q)
      → (if b then scope_dept tc.dept_id db else db).failure ≡ none
      → Demands c db.conditions
      → Demands c (if b then scope_dept tc.dept_id db else db).conditions
        × ((b ≡ false)
            ⊎ ((dept : Text) × (tc.dept_id ≡ some dept)
                × Demands
                    (equals dept_column dept)
                    (if b then scope_dept tc.dept_id db else db).conditions))
  scope_if true tc db c h k =
      let (kept, dept) = scope_dept-Demands tc tc.dept_id db c h k in (kept, inr dept)
  scope_if false tc db c h k = (k, inl refl)

  scope_fields-Isolated :
      (info : ModelInfo) (tc : TenantContext) (r : Result GoError Bool) (db : Query Q)
      → info.tenant_fields ≡ r
      → (scope_fields tc r db).failure ≡ none
      → Isolated info (some tc) (scope_fields tc r db)
  scope_fields-Isolated info tc (err e) db same h = absurd (joined_error-ne db.failure e h)
  scope_fields-Isolated info tc (ok has_dept) db same h =
      let mine : Condition Q = equals tenant_column tc.tenant_id in
      let (kept, dept) =
        scope_if (not tc.is_admin && has_dept) tc (where_also mine db) mine h
          (Demands-last mine db.conditions) in
      record {
        context = tc;
        known = refl;
        has_dept = has_dept;
        fields = same;
        tenant_demanded = kept;
        dept_demanded = elim dept [
          | inl e ↦ elim (no_dept tc.is_admin has_dept e) [ inl p ↦ inl p | inr q ↦ inr (inl q) ]
          | inr d ↦ inr (inr d)
        ];
      }

  scope_tenant-Isolated :
      (info : ModelInfo) (tenant : Option TenantContext) (db : Query Q)
      → (scope_tenant info tenant db).failure ≡ none
      → Isolated info tenant (scope_tenant info tenant db)
  scope_tenant-Isolated info none db h = absurd (joined_error-ne db.failure unauthenticated h)
  scope_tenant-Isolated info (some tc) db h =
      scope_fields-Isolated info tc info.tenant_fields db refl h

  ignored_if :
      (info : ModelInfo) (tenant : Option TenantContext) (db : Query Q) (b : Bool)
      → b ≡ false
      → (if b then db else scope_tenant info tenant db).failure ≡ none
      → Isolated info tenant (if b then db else scope_tenant info tenant db)
  ignored_if info tenant db true e h = cc
  ignored_if info tenant db false e h = scope_tenant-Isolated info tenant db h

  -- A query of a model that does not ignore tenants is without an error after applyTenantScope only if
  -- the context names a tenant, and then it demands this tenant; where the model has a department and
  -- the user is no administrator, it also demands the user's department, which must be known.
  pub apply_tenant_scope-Isolated :
      (info : ModelInfo) (tenant : Option TenantContext) (db : Query Q)
      → info.tenant_ignored ≡ false
      → (apply_tenant_scope info tenant db).failure ≡ none
      → Isolated info tenant (apply_tenant_scope info tenant db)
  unfolding apply_tenant_scope
  apply_tenant_scope-Isolated info tenant db scoped h =
      ignored_if info tenant db info.tenant_ignored scoped h
