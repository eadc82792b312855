-- ===== src/ApiKey/Defs.antt =====
-- middleware/apikey.go: APIKeyAuth. `sum` stands for sha256.Sum256, and `sort` for sort.Strings.
use ais_pkg.Prelude.{
  ◌-◌, Bool, true, false, not, ◌&&◌, ◌||◌, List, [], ◌∷◌, ◌++◌, Option, some, none, is_empty,
  length, take, drop, ltb, if◌then◌else◌,
}
use ais_pkg.Prelude.Text.{Text, codes, text_eq}
use ais_pkg.Prelude.Maps.{lookup}

-- APIKeyConfig
pub record ApiKeyConfig : Type 0 where
  pub enabled : Bool
  pub keys : List (Text × Text)

-- apiKeyHashEntry
pub record ApiKeyHashEntry : Type 0 where
  pub key_id : Text
  pub hash : Text

-- APIKeyAuth
pub record ApiKeyAuth : Type 0 where
  pub config : ApiKeyConfig
  pub key_entries : List ApiKeyHashEntry

abbrev pub or_empty : Option Text → Text
or_empty none = []
or_empty (some t) = t

-- The entry of the key with this id: cfg.Keys[keyID], hashed.
abbrev pub entry_of : (Text → Text) → List (Text × Text) → Text → ApiKeyHashEntry
entry_of sum keys key_id = record { key_id = key_id; hash = sum (or_empty (lookup key_id keys)) }

abbrev pub key_ids : List (Text × Text) → List Text
key_ids [] = []
key_ids ((key_id, key) ∷ keys) = key_id ∷ key_ids keys

abbrev pub entries_of : (Text → Text) → List (Text × Text) → List Text → List ApiKeyHashEntry
entries_of sum keys [] = []
entries_of sum keys (key_id ∷ ids) = entry_of sum keys key_id ∷ entries_of sum keys ids

-- NewAPIKeyAuth
unfoldable pub new_api_key_auth :
    (Text → Text) → (List Text → List Text) → ApiKeyConfig → ApiKeyAuth
new_api_key_auth sum sort cfg = record {
  config = cfg;
  key_entries = entries_of sum cfg.keys (sort (key_ids cfg.keys));
}

-- The loop of validateAPIKey, with the id and the flag of a match so far; and beside its result the
-- hashes that it compared with the provided one, in order.
unfoldable pub validate_loop : Text → List ApiKeyHashEntry → Text → Bool → (Text × Bool) × List Text
validate_loop provided [] matched_key_id matched = ((matched_key_id, matched), [])
validate_loop provided (entry ∷ entries) matched_key_id matched =
    let equal = text_eq provided entry.hash in
    let (found, compared) =
      validate_loop provided entries (if equal && not matched then entry.key_id else matched_key_id)
        (matched || equal) in
    (found, entry.hash ∷ compared)

-- validateAPIKey, and the hashes that it compared
unfoldable pub validate_run : (Text → Text) → ApiKeyAuth → Text → (Text × Bool) × List Text
unfolding validate_loop
validate_run sum auth api_key = validate_loop (sum api_key) auth.key_entries [] false

-- validateAPIKey
unfoldable pub validate_api_key : (Text → Text) → ApiKeyAuth → Text → Text × Bool
unfolding validate_run
validate_api_key sum auth api_key = (validate_run sum auth api_key).0

-- maskAPIKey
unfoldable pub mask_api_key : Text → Text
mask_api_key api_key =
    if ltb 8 (length api_key)
    then take 4 api_key ++ codes "****" ++ drop (length api_key - 4) api_key
    else codes "****"

-- auth[7:] if auth[:7] is "Bearer " and there is more, and no key otherwise
unfoldable pub bearer : Text → Text
bearer auth =
    if ltb 7 (length auth) && text_eq (take 7 auth) (codes "Bearer ") then drop 7 auth else []

-- The key of a request whose headers `get` reads.
unfoldable pub request_key : (Text → Text) → Text
unfolding bearer
request_key get =
    if is_empty (get (codes "X-API-Key"))
    then bearer (get (codes "Authorization"))
    else get (codes "X-API-Key")

-- What the handler does: it calls the next one, with the id of the key in the request's locals or
-- with none, or it answers with the status 401 and a message.
pub data KeyHandled : Type 0 where
  next : Option Text → KeyHandled
  refused : Text → KeyHandled

abbrev pub validated : Text × Bool → KeyHandled
validated (key_id, true) = next (some key_id)
validated (key_id, false) = refused (codes "invalid api key")

-- Authenticate
unfoldable pub authenticate_key : (Text → Text) → ApiKeyAuth → (Text → Text) → KeyHandled
unfolding request_key validate_api_key
authenticate_key sum auth get =
    if not auth.config.enabled
    then next none
    else if is_empty (request_key get)
    then refused (codes "missing api key")
    else validated (validate_api_key sum auth (request_key get))
