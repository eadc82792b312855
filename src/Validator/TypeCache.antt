-- ===== src/Validator/TypeCache.antt =====
-- validator/cache.go. A reflect.Type is a text that identifies it.
use ais_pkg.Prelude.{Bool, not, List, [], ◌∷◌, Option, some, none, is_empty, if◌then◌else◌}
use ais_pkg.Prelude.Text.{Text}
use ais_pkg.Prelude.Maps.{lookup, insert}

-- A reflect.StructField, as far as the cache reads it: whether its type is a pointer, and whether
-- that, or what it points to, is a struct.
pub record StructField : Type 0 where
  pub name : Text
  pub pkg_path : Text
  pub validate : Text
  pub error_msg : Text
  pub is_pointer : Bool
  pub element_is_struct : Bool

-- fieldInfo
pub record FieldInfo : Type 0 where
  pub name : Text
  pub validate_tag : Text
  pub error_msg_tag : Text
  pub is_struct : Bool
  pub is_ptr : Bool

abbrev pub field_info : StructField → FieldInfo
field_info field = record {
  name = field.name;
  validate_tag = field.validate;
  error_msg_tag = field.error_msg;
  is_struct = field.element_is_struct;
  is_ptr = field.is_pointer;
}

-- The loop of getFieldsInfo; fields with a package path are not exported.
unfoldable pub collect_fields : List StructField → List FieldInfo
collect_fields [] = []
collect_fields (field ∷ fields) =
    let rest = collect_fields fields in
    if not (is_empty field.pkg_path) then rest else field_info field ∷ rest

abbrev pub TypeCache : Type 0
TypeCache = List (Text × List FieldInfo)

abbrev pub found_or_collected :
    Text → List FieldInfo → TypeCache → Option (List FieldInfo) → List FieldInfo × TypeCache
found_or_collected typ fields cache (some info) = (info, cache)
found_or_collected typ fields cache none = (fields, insert typ fields cache)

-- getFieldsInfo, with the cache afterwards
unfoldable pub get_fields_info :
    (Text → List StructField) → Text → TypeCache → List FieldInfo × TypeCache
unfolding collect_fields lookup insert
get_fields_info struct_fields typ cache =
    found_or_collected typ (collect_fields (struct_fields typ)) cache (lookup typ cache)

-- typeCache.get and typeCache.set
unfoldable pub get_type : Text → TypeCache → Option (List FieldInfo)
unfolding lookup
get_type typ cache = lookup typ cache

unfoldable pub set_type : Text → List FieldInfo → TypeCache → TypeCache
unfolding insert
set_type typ info cache = insert typ info cache
