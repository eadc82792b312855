-- ===== src/Repository/Writes.antt =====
-- repository/crud.go: creation, updates and deletion.
use ais_pkg.Prelude.{
  ℕ, zero, suc, Bool, true, ◌&&◌, List, [], ◌∷◌, Option, some, none, Result, ok, err, ◌>>=◌,
  is_empty, if◌then◌else◌,
}
use ais_pkg.Prelude.Text.{Text, codes}
use ais_pkg.Prelude.Int.{ℤ, pos, negsuc}
use ais_pkg.Errors.Values.{GoError, other}
use ais_pkg.Repository.Tenant.{TenantContext, Scoped, set_tenant_fields, normalize_repository_error}
use ais_pkg.Repository.Updates.{
  FilterError, whitelist_required, not_whitelisted, not_in_schema, filter_updates,
  upsert_update_columns,
}
use ais_pkg.Repository.Queries.{
  PrimaryId, id_is, id_in, Repository, fresh, where_given, scoped, normalize_primary_id,
  normalize_primary_ids,
}
use ais_pkg.Repository.Operations.{
  Gorm, insert_rows, delete, update_columns, update_model, Conflict, unsaid, do_nothing, do_updates,
  Answer, run, and_then, invalid_id, touched, invalid_argument,
}

-- What gorm's fields do to a model: read and set its tenant and department, and tell a zero primary key.
pub record ModelFields (W : Type 0) : Type 0 where
  pub scope_of : W → Scoped
  pub with_scope : Scoped → W → W
  pub primary_is_zero : W → Bool

-- The errors of filterUpdates, without the sentences around the names.
abbrev pub filter_error : FilterError → GoError
filter_error whitelist_required =
    other (codes "strict update mode requires explicit allowedFields whitelist")
filter_error (not_whitelisted field) = other field
filter_error (not_in_schema field) = other field

abbrev pub filter_failed : {A : Type 0} → Result FilterError A → Result GoError A
filter_failed (ok a) = ok a
filter_failed (err e) = err (filter_error e)

-- The models that are not nil.
abbrev pub valid_models : {W : Type 0} → List (Option W) → List W
valid_models [] = []
valid_models (none ∷ models) = valid_models models
valid_models (some m ∷ models) = m ∷ valid_models models

-- DefaultBatchSize
abbrev pub default_batch_size : ℕ
default_batch_size = 100

abbrev pub batch_size_of : ℤ → ℕ
batch_size_of (negsuc n) = default_batch_size
batch_size_of (pos zero) = default_batch_size
batch_size_of (pos (suc n)) = suc n

module _ {W : Type 0} {S : Type 0} (g : Gorm W S) (r : Repository W) (fields : ModelFields W)
    (tenant : Option TenantContext) where
  -- setTenantFields on a model
  abbrev pub set_fields : W → Result GoError W
  set_fields m =
      set_tenant_fields r.info tenant (fields.scope_of m) >>= λ own. ok (fields.with_scope own m)

  -- The loop that sets the fields of all models.
  unfoldable pub set_all_fields : List W → Result GoError (List W)
  unfolding set_tenant_fields
  set_all_fields [] = ok []
  set_all_fields (m ∷ models) =
      set_fields m >>= λ own. set_all_fields models >>= λ rest. ok (own ∷ rest)

  abbrev pub done : Answer W → Result GoError (Unit {0})
  done a = ok tt

  -- Create
  unfoldable pub create : Option W → S → Result GoError (Unit {0}) × S
  unfolding set_tenant_fields normalize_repository_error
  create none s = (err (invalid_argument g), s)
  create (some m) s =
      and_then g (set_fields m)
        (λ own.
          run g (codes "failed to create record") done (insert_rows (own ∷ []) none unsaid) fresh)
        s

  abbrev pub create_valid : List W → ℕ → S → Result GoError (Unit {0}) × S
  create_valid [] size s = (ok tt, s)
  create_valid (m ∷ models) size s =
      and_then g (set_all_fields (m ∷ models))
        (λ own.
          run g (codes "failed to create records") done (insert_rows own (some size) unsaid) fresh)
        s

  -- CreateBatch
  unfoldable pub create_batch : List (Option W) → ℤ → S → Result GoError (Unit {0}) × S
  unfolding set_all_fields normalize_repository_error
  create_batch [] size s = (err (invalid_argument g), s)
  create_batch (m ∷ models) size s = create_valid (valid_models (m ∷ models)) (batch_size_of size) s

  abbrev pub on_conflict : List Text → Conflict
  on_conflict [] = do_nothing
  on_conflict (c ∷ columns) = do_updates (c ∷ columns)

  -- The models with their fields set, and the columns to update.
  abbrev pub upsert_parts : List W → Result GoError (List W × List Text)
  upsert_parts models =
      set_all_fields models >>= λ own. r.schema >>= λ schema. ok (own, upsert_update_columns schema)

  abbrev pub upsert_valid : List W → S → Result GoError (Unit {0}) × S
  upsert_valid [] s = (ok tt, s)
  upsert_valid (m ∷ models) s =
      and_then g (upsert_parts (m ∷ models))
        (λ ready.
          run g (codes "failed to upsert records") done
            (insert_rows (ready.0) none (on_conflict (ready.1))) fresh)
        s

  -- UpsertBatch
  unfoldable pub upsert_batch : List (Option W) → S → Result GoError (Unit {0}) × S
  unfolding set_all_fields upsert_update_columns normalize_repository_error
  upsert_batch [] s = (err (invalid_argument g), s)
  upsert_batch (m ∷ models) s = upsert_valid (valid_models (m ∷ models)) s

  abbrev pub primary_set : Option Bool → W → Result GoError (Unit {0})
  primary_set none m = err (invalid_argument g)
  primary_set (some is_ulid) m =
      if fields.primary_is_zero m then err (invalid_argument g) else ok tt

  -- ensurePrimaryKeySet
  abbrev pub ensure_primary_key_set : W → Result GoError (Unit {0})
  ensure_primary_key_set m = r.schema >>= λ _. primary_set r.primary_is_ulid m

  -- Update
  unfoldable pub update : Option W → S → Result GoError (Unit {0}) × S
  unfolding normalize_repository_error
  update none s = (err (invalid_argument g), s)
  update (some m) s =
      and_then g (ensure_primary_key_set m)
        (λ _.
          run g (codes "failed to update record") (touched g) (update_model m) (scoped r tenant))
        s

  -- filterUpdates, with the schema that it parses
  abbrev pub filtered_updates : List (Text × W) → List Text → Result GoError (List (Text × W))
  filtered_updates updates allowed =
      if r.strict_updates && is_empty allowed
      then err (filter_error whitelist_required)
      else r.schema >>= λ schema.
          filter_failed (filter_updates r.strict_updates schema updates allowed)

  abbrev pub some_left : List (Text × W) → Result GoError (List (Text × W))
  some_left [] = err (invalid_argument g)
  some_left (u ∷ updates) = ok (u ∷ updates)

  -- The columns to update, and the key.
  abbrev pub update_parts :
      Text → List (Text × W) → List Text → Result GoError (List (Text × W) × PrimaryId)
  update_parts id updates allowed = filtered_updates updates allowed >>= λ filtered.
      some_left filtered >>= λ left.
      invalid_id g (codes "invalid record id") (normalize_primary_id r id) >>= λ value.
      ok (left, value)

  -- UpdateByID
  unfoldable pub update_by_id :
      Text → List (Text × W) → List Text → S → Result GoError (Unit {0}) × S
  unfolding filter_updates normalize_primary_id normalize_repository_error
  update_by_id id [] allowed s = (err (invalid_argument g), s)
  update_by_id id (u ∷ updates) allowed s =
      and_then g (update_parts id (u ∷ updates) allowed)
        (λ ready.
          run g (codes "failed to update record") (touched g) (update_columns (ready.0))
            (where_given (id_is (ready.1)) (scoped r tenant)))
        s

  -- Delete
  unfoldable pub delete_record : Text → S → Result GoError (Unit {0}) × S
  unfolding normalize_primary_id normalize_repository_error
  delete_record id s =
      and_then g (invalid_id g (codes "invalid record id") (normalize_primary_id r id))
        (λ value.
          run g (codes "failed to delete record") (touched g) delete
            (where_given (id_is value) (scoped r tenant)))
        s

  abbrev pub delete_ids : List Text → S → Result GoError (Unit {0}) × S
  delete_ids ids s =
      and_then g (invalid_id g (codes "invalid record ids") (normalize_primary_ids r ids))
        (λ values.
          run g (codes "failed to delete records") (touched g) delete
            (where_given (id_in values) (scoped r tenant)))
        s

  -- DeleteBatch
  unfoldable pub delete_batch : List Text → S → Result GoError (Unit {0}) × S
  unfolding normalize_primary_ids normalize_repository_error
  delete_batch [] s = (err (invalid_argument g), s)
  delete_batch (id ∷ ids) s = delete_ids (id ∷ ids) s

  -- HardDelete
  unfoldable pub hard_delete : Text → S → Result GoError (Unit {0}) × S
  unfolding normalize_primary_id normalize_repository_error
  hard_delete id s =
      and_then g (invalid_id g (codes "invalid record id") (normalize_primary_id r id))
        (λ value.
          run g (codes "failed to hard delete record") (touched g) delete
            (where_given (id_is value) (record (scoped r tenant) { unscoped = true })))
        s
