-- ===== src/Tests/ApiKey.antt =====
-- middleware/apikey.go with two keys.
use ais_pkg.Prelude.{◌≡◌, ◌≢◌, refl, true, List, [], ◌∷◌, some}
use ais_pkg.Prelude.Text.{Text, text_eq}
use ais_pkg.Prelude.Maps.{lookup}
use ais_pkg.Auth.Soundness.{Member}
use ais_pkg.ApiKey.Defs.{
  ApiKeyConfig, or_empty, key_ids, new_api_key_auth, validate_loop, validate_run, validate_api_key,
  request_key, next, authenticate_key,
}
use ais_pkg.ApiKey.Laws.{
  as_match, first_match, hashes, validate_api_key-first_match, authenticate_key_sound,
}

abbrev sum : Text → Text
sum t = b'#' ∷ t

abbrev sort : List Text → List Text
sort ids = ids

abbrev config : ApiKeyConfig
config = record {
  enabled = true;
  keys = (b'a' ∷ [], b'k' ∷ []) ∷ (b'b' ∷ [], b'k' ∷ b'l' ∷ []) ∷ [];
}

-- Every header has the second key.
abbrev request : Text → Text
request name = b'k' ∷ b'l' ∷ []

validate_api_key-first_match_example :
    ((validate_run sum (new_api_key_auth sum sort config) (b'k' ∷ [])).1
      ≡ hashes (new_api_key_auth sum sort config).key_entries)
    × (validate_api_key sum (new_api_key_auth sum sort config) (b'k' ∷ [])
        ≡ as_match (first_match (sum (b'k' ∷ [])) (new_api_key_auth sum sort config).key_entries))
validate_api_key-first_match_example =
    validate_api_key-first_match sum (new_api_key_auth sum sort config) (b'k' ∷ [])

passed : authenticate_key sum (new_api_key_auth sum sort config) request ≡ next (some (b'b' ∷ []))
unfolding authenticate_key new_api_key_auth request_key validate_api_key validate_run validate_loop
    lookup text_eq
passed = refl

authenticate_key_sound_example :
    (key_id : Text) × (some (b'b' ∷ []) ≡ some key_id)
    × Member key_id (key_ids config.keys)
    × (sum (request_key request) ≡ sum (or_empty (lookup key_id config.keys)))
authenticate_key_sound_example =
    authenticate_key_sound sum sort config request (some (b'b' ∷ [])) (λ t h. h) refl passed

key_found : lookup (b'b' ∷ []) config.keys ≡ some (request_key request)
unfolding lookup text_eq request_key
key_found = refl

key_given : request_key request ≢ []
unfolding request_key
key_given = cc
