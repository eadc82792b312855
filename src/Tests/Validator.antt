-- ===== src/Tests/Validator.antt =====
-- validator on two structs that point to each other.
use mathlib.Core.List.{Memᴰ}
use ais_pkg.Prelude.{
  ℕ, ◌≡◌, ◌<◌, refl, arith, true, false, List, [], ◌∷◌, Option, some, none, inr, is_empty, ◌==◌,
  if◌then◌else◌,
}
use ais_pkg.Prelude.Text.{Text, codes, text_eq}
use ais_pkg.Prelude.Maps.{lookup}
use ais_pkg.Validator.Messages.{ValidationError, parse_error_message_tag, get_cached_error_message}
use ais_pkg.Validator.TypeCache.{StructField, FieldInfo, collect_fields}
use ais_pkg.Validator.Walk.{
  FieldValue, Object, structure, valid, field_errors, Environment, State, pointer_to, validate,
}
use ais_pkg.Validator.Caching.{Computed, message_of, get_cached_error_message-Computed}
use ais_pkg.Validator.Termination.{Bounded, validate_ends}
use ais_pkg.Validator.Coverage.{Passes, fields_of}
use ais_pkg.Validator.Valid.{Leads, here, through, validate-Passes}

abbrev email : Text
email = b'e' ∷ []

abbrev next : Text
next = b'n' ∷ []

abbrev required : Text
required = b'r' ∷ []

-- A user with an address and a pointer to another user.
abbrev user_fields : List StructField
user_fields =
    record {
      name = email;
      pkg_path = [];
      validate = required;
      error_msg = [];
      is_pointer = false;
      element_is_struct = false;
    }
    ∷ record {
      name = next;
      pkg_path = [];
      validate = [];
      error_msg = [];
      is_pointer = true;
      element_is_struct = true;
    }
    ∷ []

abbrev users : (Text → Text) → ℕ → Text → FieldValue Text
users address other name = record { interface = address name; is_nil = false; pointer = other }

abbrev user : Text → ℕ → Object Text
user address other = structure [] (users (λ _. address) other)

-- Users 0 and 1 point to each other; the second has the given address.
abbrev environment : Text → Environment Text
environment address = record {
  object = λ p. user (if p == 0 then email else address) (if p == 0 then 1 else 0);
  struct_fields = λ _. user_fields;
  var = λ v tag. if is_empty v then field_errors ((tag, email) ∷ []) else valid;
}

pointers_below : Bounded 2 (environment [])
pointers_below p typ values e name =
    let same : users (λ _. if p == 0 then email else []) (if p == 0 then 1 else 0) ≡ values = cc in
    rw (← same) (other p)
  where
    other : (p : ℕ) → (if p == 0 then 1 else 0) < 2
    other p = ground arith

validate_ends_example :
    (result : Option ValidationError × State) × (validate (environment []) 3 (pointer_to 0) [] []
      ≡ some result)
validate_ends_example =
    validate_ends (environment []) 2 3 (pointer_to 0) [] [] pointers_below (omega arith)
      (omega arith)

abbrev infos : List FieldInfo
infos =
    record {
      name = email;
      validate_tag = required;
      error_msg_tag = [];
      is_struct = false;
      is_ptr = false;
    }
    ∷ record { name = next; validate_tag = []; error_msg_tag = []; is_struct = true; is_ptr = true }
    ∷ []

abbrev clean : State
clean = record {
  errors = [];
  visited = 1 ∷ 0 ∷ [];
  type_cache = ([], infos) ∷ [];
  error_msg_cache = [];
}

accepted : validate (environment email) 3 (pointer_to 0) [] [] ≡ some (none, clean)
unfolding validate text_eq
accepted = refl

-- The second user has no address.
refused :
    validate (environment []) 3 (pointer_to 1) [] []
    ≡ some (
      some ((email, email ∷ []) ∷ []),
      record clean { errors = (email, email ∷ []) ∷ []; visited = 0 ∷ 1 ∷ [] },
    )
unfolding validate text_eq
refused = refl

second_is_reached : Leads (environment email) 0 1
unfolding collect_fields
second_is_reached =
    through [] (users (λ _. email) 1) _ here refl (Memᴰ.tail (Memᴰ.head refl)) refl (inr refl)

cached : Computed (fields_of (environment email)) []
unfolding lookup
cached k a h = absurd (cc)

abbrev address_field : FieldInfo
address_field = record {
  name = email;
  validate_tag = required;
  error_msg_tag = [];
  is_struct = false;
  is_ptr = false;
}

first_field : Memᴰ address_field (fields_of (environment email) [])
unfolding collect_fields
first_field = Memᴰ.head refl

validate-Passes_example : Passes ((environment email).var email required)
validate-Passes_example =
    validate-Passes (environment email) 3 (pointer_to 0) [] [] clean 0 1 [] (users (λ _. email) 0)
      address_field cached accepted refl second_is_reached refl first_field refl refl

no_messages : Computed parse_error_message_tag []
unfolding lookup
no_messages k a h = absurd (cc)

get_cached_error_message-Computed_example :
    ((get_cached_error_message (codes "min:short|max:long") (codes "max") []).0
      ≡ message_of (codes "min:short|max:long") (codes "max"))
    × Computed parse_error_message_tag
        (get_cached_error_message (codes "min:short|max:long") (codes "max") []).1
get_cached_error_message-Computed_example =
    get_cached_error_message-Computed (codes "min:short|max:long") (codes "max") [] no_messages
