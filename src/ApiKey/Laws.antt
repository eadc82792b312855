-- ===== src/ApiKey/Laws.antt =====
-- Which keys authenticate a request, and as which client.
use ais_pkg.Prelude.{
  ◌≡◌, ◌≢◌, refl, sym, ap, ◌∙◌, Bool, true, false, List, [], ◌∷◌, Option, some, none, if◌then◌else◌,
  inl, inr, Bool-cases, is_empty,
}
use ais_pkg.Prelude.Text.{Text, text_eq, text_eq→eq, text_eq_refl}
use ais_pkg.Prelude.Maps.{lookup}
use ais_pkg.Auth.Soundness.{Member}
use ais_pkg.ApiKey.Defs.{
  ApiKeyConfig, ApiKeyHashEntry, ApiKeyAuth, or_empty, key_ids, entries_of, new_api_key_auth,
  validate_loop, validate_run, validate_api_key, request_key, next, validated, authenticate_key,
}

-- The id of the first entry with the hash: what a search that returns early finds.
abbrev pub first_match : Text → List ApiKeyHashEntry → Option Text
first_match provided [] = none
first_match provided (entry ∷ entries) =
    if text_eq provided entry.hash then some entry.key_id else first_match provided entries

abbrev pub as_match : Option Text → Text × Bool
as_match none = ([], false)
as_match (some key_id) = (key_id, true)

-- The hashes of all entries.
abbrev pub hashes : List ApiKeyHashEntry → List Text
hashes [] = []
hashes (entry ∷ entries) = entry.hash ∷ hashes entries

validate_loop-matched :
    (provided : Text) (entries : List ApiKeyHashEntry) (key_id : Text)
    → validate_loop provided entries key_id true ≡ ((key_id, true), hashes entries)
unfolding validate_loop
validate_loop-matched provided [] key_id = refl
validate_loop-matched provided (entry ∷ entries) key_id =
    elim (Bool-cases (text_eq provided entry.hash)) [
      | inl e ↦ rw (e, validate_loop-matched provided entries key_id) refl
      | inr e ↦ rw (e, validate_loop-matched provided entries key_id) refl
    ]

validate_loop-first_match :
    (provided : Text) (entries : List ApiKeyHashEntry)
    → validate_loop provided entries [] false
      ≡ (as_match (first_match provided entries), hashes entries)
unfolding validate_loop
validate_loop-first_match provided [] = refl
validate_loop-first_match provided (entry ∷ entries) =
    elim (Bool-cases (text_eq provided entry.hash)) [
      | inl e ↦ rw (e, validate_loop-matched provided entries entry.key_id) refl
      | inr e ↦ rw (e, validate_loop-first_match provided entries) refl
    ]

-- The loop of validateAPIKey compares the provided hash with those of all entries in their order,
-- whatever the key, and gives the same answer as a search that stops at the first entry with the hash
-- of the key.
pub validate_api_key-first_match :
    (sum : Text → Text) (auth : ApiKeyAuth) (api_key : Text)
    → ((validate_run sum auth api_key).1 ≡ hashes auth.key_entries)
      × (validate_api_key sum auth api_key ≡ as_match (first_match (sum api_key) auth.key_entries))
unfolding validate_api_key validate_run
validate_api_key-first_match sum auth api_key =
    let same = validate_loop-first_match (sum api_key) auth.key_entries in
    (
      ap (λ (x : (Text × Bool) × List Text). x.1) same,
      ap (λ (x : (Text × Bool) × List Text). x.0) same,
    )

module _ (sum : Text → Text) (keys : List (Text × Text)) where
  first_match-Member :
      (provided : Text) (ids : List Text) (key_id : Text)
      → first_match provided (entries_of sum keys ids) ≡ some key_id
      → Member key_id ids × (provided ≡ sum (or_empty (lookup key_id keys)))
  first_match-Member provided [] key_id h = cc
  first_match-Member provided (i ∷ ids) key_id h =
      elim (Bool-cases (text_eq provided (sum (or_empty (lookup i keys))))) [
        | inl e ↦
            let same = some_eq i key_id (rw e at h) in
            (inl (sym same), text_eq→eq _ _ e ∙ ap (λ j. sum (or_empty (lookup j keys))) same)
        | inr e ↦
            let (there, hash) = first_match-Member provided ids key_id (rw e at h) in
            (inr there, hash)
      ]
    where
      some_eq : (i j : Text) → some i ≡ some j → i ≡ j
      some_eq i j h = cc

  first_match-found :
      (provided : Text) (ids : List Text) (key_id : Text)
      → Member key_id ids
      → provided ≡ sum (or_empty (lookup key_id keys))
      → (other : Text) × (first_match provided (entries_of sum keys ids) ≡ some other)
  first_match-found provided [] key_id there hash = absurd there
  first_match-found provided (i ∷ ids) key_id there hash =
      elim (Bool-cases (text_eq provided (sum (or_empty (lookup i keys))))) [
        | inl e ↦ (i, rw e refl)
        | inr e ↦ elim there [
          | inl same ↦ absurd (differ i (rw same at hash) e)
          | inr later ↦
              let (other, found) = first_match-found provided ids key_id later hash in
              (other, rw e found)
        ]
      ]
    where
      differ :
          (i : Text)
          → provided ≡ sum (or_empty (lookup i keys))
          → text_eq provided (sum (or_empty (lookup i keys))) ≡ false
          → ⊥
      differ i h e = cc (text_eq_refl (sum (or_empty (lookup i keys))), rw h at e)

as_match-true :
    (o : Option Text) (key_id : Text)
    → validated (as_match o) ≡ next (some key_id)
    → o ≡ some key_id
as_match-true none key_id h = cc
as_match-true (some i) key_id h = cc

validated-next :
    (x : Text × Bool) (o : Option Text) → validated x ≡ next o → (key_id : Text) × (o ≡ some key_id)
validated-next (i, true) o h = (i, cc)
validated-next (i, false) o h = cc

module _ (sum : Text → Text) (sort : List Text → List Text) (cfg : ApiKeyConfig)
    (get : Text → Text) where
  validated_of_next :
      (o : Option Text)
      → cfg.enabled ≡ true
      → authenticate_key sum (new_api_key_auth sum sort cfg) get ≡ next o
      → validated (validate_api_key sum (new_api_key_auth sum sort cfg) (request_key get)) ≡ next o
  unfolding authenticate_key new_api_key_auth
  validated_of_next o on h = elim (Bool-cases (is_empty (request_key get))) [
    | inl e ↦ cc (rw (on, e) at h)
    | inr e ↦ rw (on, e) at h
  ]

  -- With the authentication enabled, a request is passed on only with the id of a configured key, and
  -- only if the hash of the request's key is the hash of that key. The sort adds no ids.
  pub authenticate_key_sound :
      (o : Option Text)
      → ((t : Text) → Member t (sort (key_ids cfg.keys)) → Member t (key_ids cfg.keys))
      → cfg.enabled ≡ true
      → authenticate_key sum (new_api_key_auth sum sort cfg) get ≡ next o
      → (key_id : Text) × (o ≡ some key_id)
        × Member key_id (key_ids cfg.keys)
        × (sum (request_key get) ≡ sum (or_empty (lookup key_id cfg.keys)))
  unfolding new_api_key_auth
  authenticate_key_sound o keeps on h =
      let v = validated_of_next o on h in
      let (key_id, named) = validated-next _ o v in
      let found =
        as_match-true
          (first_match (sum (request_key get)) (entries_of sum cfg.keys (sort (key_ids cfg.keys))))
          key_id
          (ap validated (
              sym (
                (validate_api_key-first_match sum (new_api_key_auth sum sort cfg)
                  (request_key get)).1))
            ∙ v
            ∙ ap next named) in
      let (there, hash) =
        first_match-Member sum cfg.keys (sum (request_key get)) (sort (key_ids cfg.keys)) key_id
          found in
      (key_id, named, keeps key_id there, hash)

  -- A request with a configured key that is not empty is passed on, with the id of some key. The sort
  -- loses no ids.
  pub authenticate_key_complete :
      (key_id : Text)
      → ((t : Text) → Member t (key_ids cfg.keys) → Member t (sort (key_ids cfg.keys)))
      → cfg.enabled ≡ true
      → Member key_id (key_ids cfg.keys)
      → lookup key_id cfg.keys ≡ some (request_key get)
      → request_key get ≢ []
      → (other : Text) × (authenticate_key sum (new_api_key_auth sum sort cfg) get
          ≡ next (some other))
  unfolding authenticate_key new_api_key_auth
  authenticate_key_complete key_id keeps on there key ne =
      let (other, found) =
        first_match-found sum cfg.keys (sum (request_key get)) (sort (key_ids cfg.keys)) key_id
          (keeps key_id there) (ap sum (sym (ap or_empty key))) in
      (
        other,
        rw
            (
              on,
              not_empty (request_key get) ne,
              (validate_api_key-first_match sum (new_api_key_auth sum sort cfg)
                  (request_key get)).1,
              found,
            )
            refl,
      )
    where
      not_empty : (t : Text) → t ≢ [] → is_empty t ≡ false
      not_empty [] h = absurd (h refl)
      not_empty (b ∷ t) h = refl
