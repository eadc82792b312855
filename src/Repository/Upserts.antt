-- ===== src/Repository/Upserts.antt =====
-- What an upsert of repository/crud.go overwrites on a conflict.
use ais_pkg.Prelude.{◌≡◌, ◌≢◌, true, false, List, is_empty, Among}
use ais_pkg.Prelude.Text.{Text}
use ais_pkg.Repository.Tenant.{tenant_column, dept_column}
use ais_pkg.Repository.Updates.{Field}

-- The column of a field among these that an upsert overwrites.
pub record Upsertable (fields : List Field) (c : Text) : Type 0 where
  pub field : Field
  pub listed : Among field fields
  pub same_column : c ≡ field.db_name
  pub named : is_empty c ≡ false
  pub not_primary : field.primary_key ≡ false
  pub updatable : field.updatable ≡ true
  pub not_created : field.auto_create_time ≡ false
  pub not_tenant : c ≢ tenant_column
  pub not_dept : c ≢ dept_column
