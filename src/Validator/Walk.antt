-- ===== src/Validator/Walk.antt =====
-- validator/validator.go: Validate and validateRecursive. Pointers with their types, the keys of the
-- visited set, are numbers; what stands behind them is the environment.
use ais_pkg.Prelude.{
  ℕ, zero, suc, Bool, List, [], ◌∷◌, ◌++◌, Option, some, none, is_empty, any, ◌==◌, if◌then◌else◌,
}
use ais_pkg.Prelude.Text.{Text}
use ais_pkg.Validator.Messages.{
  ValidationError, has_errors, add, MessageCache, get_cached_error_message,
}
use ais_pkg.Validator.TypeCache.{StructField, FieldInfo, TypeCache, get_fields_info}

-- A field of a struct: its Interface(), whether it is a nil pointer, and the pointer that it is, or
-- its address.
pub record FieldValue (V : Type 0) : Type 0 where
  pub interface : V
  pub is_nil : Bool
  pub pointer : ℕ

-- What a pointer leads to: a struct of a type with its fields by name, or something else.
pub data Object (V : Type 0) : Type 0 where
  structure : Text → (Text → FieldValue V) → Object V
  no_struct : Object V

-- A validator.FieldError: its tag and its text.
abbrev pub FieldError : Type 0
FieldError = Text × Text

-- The error of Var: none, ValidationErrors, or another one with its text.
pub data VarResult : Type 0 where
  valid : VarResult
  field_errors : List FieldError → VarResult
  other_error : Text → VarResult

-- What reflect tells, and Var of github.com/go-playground/validator.
pub record Environment (V : Type 0) : Type 0 where
  pub object : ℕ → Object V
  pub struct_fields : Text → List StructField
  pub var : V → Text → VarResult

-- The ValidationError, the visited set and the caches of the Validator.
pub record State : Type 0 where
  pub errors : ValidationError
  pub visited : List ℕ
  pub type_cache : TypeCache
  pub error_msg_cache : MessageCache

abbrev pub full_field_name : Text → Text → Text
full_field_name prefix name = if is_empty prefix then name else prefix ++ b'.' ∷ name

-- The loop over validator.ValidationErrors.
unfoldable pub add_messages : FieldInfo → Text → List FieldError → State → State
unfolding add get_cached_error_message
add_messages info full [] st = st
add_messages info full ((tag, text) ∷ more) st =
    let (custom, cache) = get_cached_error_message info.error_msg_tag tag st.error_msg_cache in
    let message = if is_empty custom then text else custom in
    add_messages info full more
      (record st { errors = add full message st.errors; error_msg_cache = cache })

abbrev pub report : FieldInfo → Text → VarResult → State → State
report info full valid st = st
report info full (other_error text) st = record st { errors = add full text st.errors }
report info full (field_errors more) st = add_messages info full more st

-- `visit` goes on to a nested struct.
abbrev pub Visit : Type 0
Visit = ℕ → Text → State → Option State

-- The body of the loop over the fields.
unfoldable pub check_field :
    {V : Type 0}
    → Environment V
    → Visit
    → (Text → FieldValue V)
    → Text
    → FieldInfo
    → State
    → Option State
unfolding add_messages
check_field env visit values prefix info st =
    let value = values info.name in
    let full = full_field_name prefix info.name in
    if info.is_struct
    then if info.is_ptr
      then if value.is_nil then some st else visit value.pointer full st
      else visit value.pointer full st
    else if is_empty info.validate_tag
    then some st
    else some (report info full (env.var value.interface info.validate_tag) st)

-- The loop over the fields; `none` is a visit that ran out of fuel.
unfoldable pub field_loop :
    {V : Type 0}
    → Environment V
    → Visit
    → (Text → FieldValue V)
    → Text
    → List FieldInfo
    → State
    → Option State
unfolding check_field
field_loop env visit values prefix [] st = some st
field_loop env visit values prefix (info ∷ infos) st =
    elim (check_field env visit values prefix info st) [
      | none ↦ none
      | some next ↦ field_loop env visit values prefix infos next
    ]

-- validateRecursive behind the dereference of the pointer.
abbrev pub validate_object :
    {V : Type 0} → Environment V → Visit → Object V → Text → State → Option State
validate_object env visit no_struct prefix st = some st
validate_object env visit (structure typ values) prefix st =
    let (infos, cache) = get_fields_info env.struct_fields typ st.type_cache in
    field_loop env visit values prefix infos (record st { type_cache = cache })

abbrev pub mem : ℕ → List ℕ → Bool
mem x xs = any (λ y. x == y) xs

abbrev pub marked : ℕ → State → State
marked p st = record st { visited = p ∷ st.visited }

-- validateRecursive on a pointer that is not nil, on fuel
unfoldable pub validate_recursive : {V : Type 0} → Environment V → ℕ → Visit
unfolding field_loop get_fields_info
validate_recursive env zero p prefix st = none
validate_recursive env (suc f) p prefix st =
    let rest = validate_object env (validate_recursive env f) (env.object p) prefix (marked p st) in
    if mem p st.visited then some st else rest

-- What Validate is called with: nil, a struct (which it copies behind a new pointer), a pointer, or
-- a value that validateRecursive leaves alone.
pub data Input : Type 0 where
  nil_interface nil_pointer not_pointer : Input
  struct_copy pointer_to : ℕ → Input

abbrev pub start : TypeCache → MessageCache → State
start types messages = record {
  errors = [];
  visited = [];
  type_cache = types;
  error_msg_cache = messages;
}

-- The call of validateRecursive in Validate.
abbrev pub walk : {V : Type 0} → Environment V → ℕ → Input → State → Option State
walk env f nil_interface st = some st
walk env f nil_pointer st = some st
walk env f not_pointer st = some st
walk env f (struct_copy p) st = validate_recursive env f p [] st
walk env f (pointer_to p) st = validate_recursive env f p [] st

-- The error that Validate returns, if there is one, and the state with the caches.
abbrev pub finish : Option State → Option (Option ValidationError × State)
finish none = none
finish (some st) = some ((if has_errors st.errors then some st.errors else none), st)

-- Validate
unfoldable pub validate :
    {V : Type 0}
    → Environment V
    → ℕ
    → Input
    → TypeCache
    → MessageCache
    → Option (Option ValidationError × State)
unfolding validate_recursive has_errors
validate env f s types messages = finish (walk env f s (start types messages))
