-- ===== src/Repository/Updates.antt =====
-- repository/crud.go: filterUpdates and upsertUpdateColumns. The schema is what gorm parsed of the
-- model; warnings are left out.
use ais_pkg.Prelude.{
  Bool, not, ◌&&◌, ◌||◌, List, [], ◌∷◌, Option, some, none, Result, ok, err, is_empty, any,
  if◌then◌else◌,
}
use ais_pkg.Prelude.Text.{Text, text_eq}
use ais_pkg.Prelude.Maps.{insert}
use ais_pkg.Repository.Tenant.{tenant_column, dept_column}

-- schema.Field of gorm, with the fields that are read; `auto_create_time` is AutoCreateTime > 0.
pub record Field : Type 0 where
  pub db_name : Text
  pub primary_key : Bool
  pub updatable : Bool
  pub auto_create_time : Bool

-- schema.Schema of gorm: Fields, FieldsByDBName and FieldsByName.
pub record Schema : Type 0 where
  pub fields : List Field
  pub by_db_name : Text → Option Field
  pub by_name : Text → Option Field

-- The errors of filterUpdates.
pub data FilterError : Type 0 where
  whitelist_required : FilterError
  not_whitelisted : Text → FilterError
  not_in_schema : Text → FilterError

-- field.DBName == tenantColumn || field.DBName == deptColumn
abbrev pub is_tenant_field : Field → Bool
is_tenant_field f = text_eq f.db_name tenant_column || text_eq f.db_name dept_column

-- What becomes of an update of a field that was found, under the column `c`.
abbrev pub put_update : {V : Type 0} → Field → Text → V → List (Text × V) → List (Text × V)
put_update f c v filtered =
    if is_tenant_field f
    then filtered
    else if not f.primary_key && f.updatable
    then insert c v filtered
    else filtered

abbrev pub is_whitelisted : List Text → Text → Bool
is_whitelisted allowed k = is_empty allowed || any (text_eq k) allowed

module _ {V : Type 0} where
  abbrev pub by_name_update :
      Bool → Option Field → Text → V → List (Text × V) → Result FilterError (List (Text × V))
  by_name_update strict none k v filtered = if strict then err (not_in_schema k) else ok filtered
  by_name_update strict (some f) k v filtered = ok (put_update f f.db_name v filtered)

  -- The lookup of the field: first by the name of its column, then by its own.
  abbrev pub find_update :
      Bool
      → Option Field
      → Option Field
      → Text
      → V
      → List (Text × V)
      → Result FilterError (List (Text × V))
  find_update strict none by_name k v filtered = by_name_update strict by_name k v filtered
  find_update strict (some f) by_name k v filtered = ok (put_update f k v filtered)

  -- One entry of the updates, in the loop of filterUpdates.
  abbrev pub filter_update :
      Bool → Schema → List Text → Text → V → List (Text × V) → Result FilterError (List (Text × V))
  filter_update strict schema allowed k v filtered =
      if is_whitelisted allowed k
      then find_update strict (schema.by_db_name k) (schema.by_name k) k v filtered
      else if strict
      then err (not_whitelisted k)
      else ok filtered

  abbrev pub then_filter :
      (List (Text × V) → Result FilterError (List (Text × V)))
      → Result FilterError (List (Text × V))
      → Result FilterError (List (Text × V))
  then_filter f (ok filtered) = f filtered
  then_filter f (err e) = err e

  -- The loop of filterUpdates, in the order in which the map gives its entries.
  unfoldable pub filter_loop :
      Bool
      → Schema
      → List Text
      → List (Text × V)
      → List (Text × V)
      → Result FilterError (List (Text × V))
  filter_loop strict schema allowed [] filtered = ok filtered
  filter_loop strict schema allowed ((k, v) ∷ updates) filtered =
      then_filter (λ f. filter_loop strict schema allowed updates f)
        (filter_update strict schema allowed k v filtered)

  -- filterUpdates, with a schema that parses
  unfoldable pub filter_updates :
      Bool → Schema → List (Text × V) → List Text → Result FilterError (List (Text × V))
  unfolding filter_loop
  filter_updates strict schema updates allowed =
      if strict && is_empty allowed
      then err whitelist_required
      else filter_loop strict schema allowed updates []

-- Whether upsertUpdateColumns takes the column of the field.
abbrev pub is_upserted : Field → Bool
is_upserted f =
    not (is_empty f.db_name)
    && not (f.primary_key || not f.updatable)
    && not f.auto_create_time
    && not (is_tenant_field f)

abbrev pub upsert_columns : List Field → List Text
upsert_columns [] = []
upsert_columns (f ∷ fs) =
    let rest = upsert_columns fs in if is_upserted f then f.db_name ∷ rest else rest

-- upsertUpdateColumns, with a schema that parses
unfoldable pub upsert_update_columns : Schema → List Text
upsert_update_columns schema = upsert_columns schema.fields
