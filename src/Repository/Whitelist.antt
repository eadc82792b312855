-- ===== src/Repository/Whitelist.antt =====
-- What an update or an upsert can write.
use ais_pkg.Prelude.{
  ◌≡◌, ◌≢◌, refl, ◌∙◌, arith, Bool, true, false, not, ◌&&◌, List, [], ◌∷◌, Option, some, none,
  Result, ok, err, is_empty, if◌then◌else◌, inl, inr, ◌⊎◌, Bool-cases, All,
}
use ais_pkg.Prelude.Text.{Text, text_eq, text_eq_refl}
use ais_pkg.Prelude.Maps.{insert}
use ais_pkg.Repository.Tenant.{tenant_column, dept_column}
use ais_pkg.Repository.Updates.{
  Field, Schema, FilterError, whitelist_required, is_tenant_field, put_update, is_whitelisted,
  by_name_update, find_update, filter_update, then_filter, filter_loop, filter_updates,
}

-- The column belongs to a field of the schema that may be written: no primary key, updatable, and
-- neither the tenant's nor the department's; and an update that the whitelist has, if it is not
-- empty, names the field.
pub record Writable (schema : Schema) (allowed : List Text) (c : Text) : Type 0 where
  pub field : Field
  pub name : Text
  pub found : (schema.by_db_name name ≡ some field) ⊎ (schema.by_name name ≡ some field)
  pub whitelisted : is_whitelisted allowed name ≡ true
  pub same_column : field.db_name ≡ c
  pub not_primary : field.primary_key ≡ false
  pub updatable : field.updatable ≡ true
  pub not_tenant : c ≢ tenant_column
  pub not_dept : c ≢ dept_column

not_column : (c d : Text) → text_eq c d ≡ false → c ≢ d
not_column c d h e = cc (rw e at h, text_eq_refl d)

module _ (schema : Schema) (allowed : List Text) where
  -- All columns of the updates are writable.
  abbrev pub AllWritable : {V : Type 0} → List (Text × V) → Type 0
  AllWritable = All (λ u. Writable schema allowed u.0)

  insert-AllWritable :
      {V : Type 0} (c : Text) (v : V) (m : List (Text × V))
      → Writable schema allowed c
      → AllWritable m
      → AllWritable (insert c v m)
  unfolding insert
  insert-AllWritable c v [] w h = (w, tt)
  insert-AllWritable c v ((j, x) ∷ m) w h = elim (Bool-cases (text_eq j c)) [
    | inl e ↦ rw e (w, h.1)
    | inr e ↦ rw e (h.0, insert-AllWritable c v m w h.1)
  ]

  field-Writable :
      (f : Field) (k c : Text)
      → (schema.by_db_name k ≡ some f) ⊎ (schema.by_name k ≡ some f)
      → is_whitelisted allowed k ≡ true
      → f.db_name ≡ c
      → is_tenant_field f ≡ false
      → (not f.primary_key && f.updatable) ≡ true
      → Writable schema allowed c
  field-Writable f k c found listed same tenant free = record {
    field = f;
    name = k;
    found = found;
    whitelisted = listed;
    same_column = same;
    not_primary = ground arith;
    updatable = ground arith;
    not_tenant = λ e. not_column f.db_name tenant_column (ground arith) (same ∙ e);
    not_dept = λ e. not_column f.db_name dept_column (ground arith) (same ∙ e);
  }

  put_update-AllWritable :
      {V : Type 0} (f : Field) (k c : Text) (v : V) (m : List (Text × V))
      → (schema.by_db_name k ≡ some f) ⊎ (schema.by_name k ≡ some f)
      → is_whitelisted allowed k ≡ true
      → f.db_name ≡ c
      → AllWritable m
      → AllWritable (put_update f c v m)
  put_update-AllWritable f k c v m found listed same h = elim (Bool-cases (is_tenant_field f)) [
    | inl e ↦ rw e h
    | inr e ↦ elim (Bool-cases (not f.primary_key && f.updatable)) [
      | inl w ↦ rw (e, w) (insert-AllWritable c v m (field-Writable f k c found listed same e w) h)
      | inr w ↦ rw (e, w) h
    ]
  ]

  -- A result holds only writable columns, if it is no error.
  abbrev Keeps : {V : Type 0} → Result FilterError (List (Text × V)) → Type 0
  Keeps (ok m) = AllWritable m
  Keeps (err e) = Unit {0}

  Keeps-if :
      {V : Type 0} (b : Bool) (x y : Result FilterError (List (Text × V)))
      → (b ≡ true → Keeps x)
      → Keeps y
      → Keeps (if b then x else y)
  Keeps-if true x y h k = h refl
  Keeps-if false x y h k = k

  by_name_update-Keeps :
      {V : Type 0} (strict : Bool) (o : Option Field) (k : Text) (v : V) (m : List (Text × V))
      → schema.by_name k ≡ o
      → is_whitelisted allowed k ≡ true
      → AllWritable m
      → Keeps (by_name_update strict o k v m)
  by_name_update-Keeps strict none k v m found listed h = Keeps-if strict _ _ (λ e. tt) h
  by_name_update-Keeps strict (some f) k v m found listed h =
      put_update-AllWritable f k f.db_name v m (inr found) listed refl h

  find_update-Keeps :
      {V : Type 0} (strict : Bool) (o : Option Field) (k : Text) (v : V) (m : List (Text × V))
      → ((c : Text) (f : Field) → schema.by_db_name c ≡ some f → f.db_name ≡ c)
      → schema.by_db_name k ≡ o
      → is_whitelisted allowed k ≡ true
      → AllWritable m
      → Keeps (find_update strict o (schema.by_name k) k v m)
  find_update-Keeps strict none k v m keyed found listed h =
      by_name_update-Keeps strict (schema.by_name k) k v m refl listed h
  find_update-Keeps strict (some f) k v m keyed found listed h =
      put_update-AllWritable f k k v m (inl found) listed (keyed k f found) h

  filter_update-Keeps :
      {V : Type 0} (strict : Bool) (k : Text) (v : V) (m : List (Text × V))
      → ((c : Text) (f : Field) → schema.by_db_name c ≡ some f → f.db_name ≡ c)
      → AllWritable m
      → Keeps (filter_update strict schema allowed k v m)
  filter_update-Keeps strict k v m keyed h =
      Keeps-if (is_whitelisted allowed k) _ _
        (λ listed. find_update-Keeps strict (schema.by_db_name k) k v m keyed refl listed h)
        (Keeps-if strict _ _ (λ e. tt) h)

  then_filter-Keeps :
      {V : Type 0} (f : List (Text × V) → Result FilterError (List (Text × V)))
      (x : Result FilterError (List (Text × V)))
      → ((m : List (Text × V)) → AllWritable m → Keeps (f m))
      → Keeps x
      → Keeps (then_filter f x)
  then_filter-Keeps f (ok m) g h = g m h
  then_filter-Keeps f (err e) g h = tt

  filter_loop-Keeps :
      {V : Type 0} (strict : Bool) (updates m : List (Text × V))
      → ((c : Text) (f : Field) → schema.by_db_name c ≡ some f → f.db_name ≡ c)
      → AllWritable m
      → Keeps (filter_loop strict schema allowed updates m)
  unfolding filter_loop
  filter_loop-Keeps strict [] m keyed h = h
  filter_loop-Keeps strict ((k, v) ∷ updates) m keyed h =
      then_filter-Keeps (λ f. filter_loop strict schema allowed updates f)
        (filter_update strict schema allowed k v m)
        (λ m' h'. filter_loop-Keeps strict updates m' keyed h')
        (filter_update-Keeps strict k v m keyed h)

  -- Whatever a caller sends as updates, filterUpdates lets through only columns of fields that the
  -- whitelist names, if there is one, that are updatable, and that are neither the primary key nor
  -- the column of the tenant or of the department. The schema finds fields under their own columns.
  pub filter_updates-AllWritable :
      {V : Type 0} (strict : Bool) (updates filtered : List (Text × V))
      → ((c : Text) (f : Field) → schema.by_db_name c ≡ some f → f.db_name ≡ c)
      → filter_updates strict schema updates allowed ≡ ok filtered
      → AllWritable filtered
  unfolding filter_updates
  filter_updates-AllWritable strict updates filtered keyed h = rw h at (
      Keeps-if (strict && is_empty allowed) (err whitelist_required)
        (filter_loop strict schema allowed updates []) (λ e. tt)
        (filter_loop-Keeps strict updates [] keyed tt))
