-- ===== src/Tests/Repository.antt =====
-- repository on a model with a tenant and a department.
use ais_pkg.Prelude.{ℕ, ◌≡◌, refl, Bool, true, false, List, [], ◌∷◌, some, none, ok, if◌then◌else◌}
use ais_pkg.Prelude.Text.{Text, codes, text_eq, text_eq→eq}
use ais_pkg.Prelude.Maps.{insert}
use ais_pkg.Repository.Tenant.{
  tenant_column, dept_column, TenantContext, ModelInfo, apply_tenant_scope, Scoped,
  set_tenant_fields,
}
use ais_pkg.Repository.Isolation.{Isolated, apply_tenant_scope-Isolated}
use ais_pkg.Repository.Creation.{InScope, no_query, set_tenant_fields-InScope}
use ais_pkg.Repository.Updates.{Field, Schema, filter_loop, filter_updates}
use ais_pkg.Repository.Whitelist.{AllWritable, filter_updates-AllWritable}

abbrev info : ModelInfo
info = record { tenant_ignored = false; tenant_fields = ok true }

abbrev user : TenantContext
user = record { tenant_id = b't' ∷ []; dept_id = some (b'd' ∷ []); is_admin = false }

clean : (apply_tenant_scope info (some user) (no_query ℕ)).failure ≡ none
unfolding apply_tenant_scope
clean = refl

apply_tenant_scope-Isolated_example :
    Isolated info (some user) (apply_tenant_scope info (some user) (no_query ℕ))
apply_tenant_scope-Isolated_example =
    apply_tenant_scope-Isolated info (some user) (no_query ℕ) refl clean

abbrev blank : Scoped
blank = record { tenant = []; dept = none }

abbrev stamped : Scoped
stamped = record { tenant = b't' ∷ []; dept = some (b'd' ∷ []) }

stamps : set_tenant_fields info (some user) blank ≡ ok stamped
unfolding set_tenant_fields
stamps = refl

set_tenant_fields-InScope_example :
    InScope stamped (apply_tenant_scope info (some user) (no_query ℕ))
set_tenant_fields-InScope_example =
    set_tenant_fields-InScope ℕ info (some user) blank stamped stamps

abbrev name_field : Field
name_field = record {
  db_name = b'n' ∷ [];
  primary_key = false;
  updatable = true;
  auto_create_time = false;
}

abbrev schema : Schema
schema = record {
  fields = name_field ∷ [];
  by_db_name = λ c. if text_eq c (b'n' ∷ []) then some name_field else none;
  by_name = λ k. none;
}

keyed : (c : Text) (f : Field) → schema.by_db_name c ≡ some f → f.db_name ≡ c
keyed c f h = found (text_eq c (b'n' ∷ [])) refl h
  where
    found :
        (b : Bool)
        → text_eq c (b'n' ∷ []) ≡ b
        → (if b then some name_field else none) ≡ some f
        → f.db_name ≡ c
    found true e h = cc (text_eq→eq c (b'n' ∷ []) e, h)
    found false e h = cc

abbrev updates : List (Text × ℕ)
updates = (b'n' ∷ [], 1) ∷ (b'x' ∷ [], 2) ∷ []

filtered : filter_updates false schema updates [] ≡ ok ((b'n' ∷ [], 1) ∷ [])
unfolding filter_updates filter_loop insert tenant_column dept_column codes text_eq
filtered = refl

filter_updates-AllWritable_example : AllWritable schema [] {V = ℕ} ((b'n' ∷ [], 1) ∷ [])
filter_updates-AllWritable_example =
    filter_updates-AllWritable schema [] false updates ((b'n' ∷ [], 1) ∷ []) keyed filtered

abbrev text : Text
text = b'm' ∷ []
