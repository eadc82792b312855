-- ===== src/Ulid/Defs.antt =====
-- ulid/id.go and ulid/convert.go. An ID is the list of its 16 bytes, and an operation that sets the ID
-- behind its pointer takes the old one and gives the new one with its error.
use ais_pkg.Prelude.{
  ℕ, Bool, true, false, ◌||◌, [], ◌∷◌, Option, some, none, Result, ok, err, length, is_empty, ◌==◌,
  if◌then◌else◌,
}
use ais_pkg.Prelude.Text.{Text, codes, text_eq, trim_space}

abbrev pub Ulid : Type 0
Ulid = Text

-- A result of Compare: -1, 0 and 1.
pub data Order : Type 0 where
  less same greater : Order

abbrev pub is_same : Order → Bool
is_same less = false
is_same same = true
is_same greater = false

pub data UlidError : Type 0 where
  library : Text → UlidError
  invalid_length : ℕ → UlidError
  invalid_source : UlidError
  unmarshal_failed : Text → UlidError
  parse_failed : Text → Text → UlidError
  invalid_uuid : Text → UlidError

-- The libraries: ulid.ULID of github.com/oklog/ulid, strings of encoding/json, and uuid.UUID. The
-- unmarshalling functions take the old value, and give the new one with their error.
pub record Libraries : Type 0 where
  pub compare : Ulid → Ulid → Order
  pub string : Ulid → Text
  pub parse : Text → Result Text Ulid
  pub marshal_text : Ulid → Text
  pub unmarshal_text : Ulid → Text → Option Text × Ulid
  pub marshal_binary : Ulid → Text
  pub unmarshal_binary : Ulid → Text → Option Text × Ulid
  pub json_marshal : Text → Text
  pub json_unmarshal : Text → Result Text Text
  pub uuid_string : Text → Text
  pub uuid_parse : Text → Result Text Text

-- ID{}, ZeroID and Zero
unfoldable pub zero_id : Ulid
zero_id = 0 ∷ 0 ∷ 0 ∷ 0 ∷ 0 ∷ 0 ∷ 0 ∷ 0 ∷ 0 ∷ 0 ∷ 0 ∷ 0 ∷ 0 ∷ 0 ∷ 0 ∷ 0 ∷ []

-- A value of a column: NULL, bytes, a string, or something else.
pub data Source : Type 0 where
  null : Source
  bytes_of : Text → Source
  string_of : Text → Source
  anything : Source

-- An error, if there is one, and the ID afterwards.
abbrev pub Outcome : Type 0
Outcome = Option UlidError × Ulid

abbrev pub from_library : Option Text × Ulid → Outcome
from_library (none, id) = (none, id)
from_library (some e, id) = (some (library e), id)

module _ (lib : Libraries) where
  -- ParseID
  unfoldable pub parse_id : Text → Result Text Ulid
  parse_id s = lib.parse s

  -- ID.IsZero and IsZero
  unfoldable pub is_zero : Ulid → Bool
  is_zero id = is_same (lib.compare id zero_id)

  -- ID.Value; a nil value is NULL
  unfoldable pub value : Ulid → Source
  value id = if is_zero id then null else bytes_of (lib.marshal_binary id)

  -- The cases of Scan for bytes that are not 16.
  abbrev pub scan_text : Ulid → Text → Outcome
  scan_text id trimmed =
      if length trimmed == 0
      then (none, zero_id)
      else if length trimmed == 26
      then from_library (lib.unmarshal_text id trimmed)
      else (some (invalid_length (length trimmed)), id)

  -- ID.Scan
  unfoldable pub scan : Ulid → Source → Outcome
  scan id null = (none, zero_id)
  scan id (bytes_of v) =
      if length v == 0
      then (none, zero_id)
      else if length v == 16
      then from_library (lib.unmarshal_binary id v)
      else scan_text id (trim_space v)
  scan id (string_of v) =
      let trimmed = trim_space v in
      if is_empty trimmed then (none, zero_id) else from_library (lib.unmarshal_text id trimmed)
  scan id anything = (some invalid_source, id)

  -- ID.MarshalJSON
  unfoldable pub marshal_json : Ulid → Text
  marshal_json id = if is_zero id then codes "null" else lib.json_marshal (lib.string id)

  abbrev pub parsed_json : Ulid → Text → Result Text Ulid → Outcome
  parsed_json id trimmed (ok parsed) = (none, parsed)
  parsed_json id trimmed (err e) = (some (parse_failed trimmed e), id)

  abbrev pub from_json_string : Ulid → Result Text Text → Outcome
  from_json_string id (err e) = (some (unmarshal_failed e), id)
  from_json_string id (ok s) =
      let trimmed = trim_space s in
      if is_empty trimmed then (none, zero_id) else parsed_json id trimmed (lib.parse trimmed)

  -- ID.UnmarshalJSON
  unfoldable pub unmarshal_json : Ulid → Text → Outcome
  unmarshal_json id d =
      if text_eq d (codes "null") || text_eq d (b'"' ∷ b'"' ∷ [])
      then (none, zero_id)
      else from_json_string id (lib.json_unmarshal d)

  -- ID.MarshalText
  unfoldable pub marshal_text : Ulid → Text
  marshal_text id = if is_zero id then [] else lib.marshal_text id

  -- ID.UnmarshalText
  unfoldable pub unmarshal_text : Ulid → Text → Outcome
  unmarshal_text id d =
      let trimmed = trim_space d in
      if length trimmed == 0 then (none, zero_id) else from_library (lib.unmarshal_text id trimmed)

  -- ID.MarshalBinary
  unfoldable pub marshal_binary : Ulid → Text
  marshal_binary id = if is_zero id then [] else lib.marshal_binary id

  -- ID.UnmarshalBinary
  unfoldable pub unmarshal_binary : Ulid → Text → Outcome
  unmarshal_binary id d =
      if length d == 0 then (none, zero_id) else from_library (lib.unmarshal_binary id d)

-- copy(to[:], from[:]): what is left of `to` behind the bytes of `from`
abbrev pub copy : Text → Text → Text
copy [] from = []
copy (b ∷ to) [] = b ∷ to
copy (b ∷ to) (c ∷ from) = c ∷ copy to from

-- ToUUID and ID.ToUUID
unfoldable pub to_uuid : Ulid → Text
to_uuid id = copy zero_id id

-- FromUUID and IDFromUUID
unfoldable pub from_uuid : Text → Ulid
from_uuid u = copy zero_id u

-- ToUUIDString and ID.ToUUIDString
unfoldable pub to_uuid_string : Libraries → Ulid → Text
to_uuid_string lib id = lib.uuid_string (to_uuid id)

abbrev pub uuid_parsed : Result Text Text → Result UlidError Ulid
uuid_parsed (err e) = err (invalid_uuid e)
uuid_parsed (ok u) = ok (from_uuid u)

-- FromUUIDString and IDFromUUIDString
unfoldable pub from_uuid_string : Libraries → Text → Result UlidError Ulid
from_uuid_string lib s = uuid_parsed (lib.uuid_parse s)
