-- ===== src/Validator/Caching.antt =====
-- The caches of validator never change an answer.
use ais_pkg.Prelude.{
  ◌≡◌, refl, List, [], ◌∷◌, Option, some, none, inl, inr, Bool-cases, is_empty, if◌then◌else◌,
}
use ais_pkg.Prelude.Text.{Text, text_eq, text_eq→eq}
use ais_pkg.Prelude.Maps.{lookup, insert, lookup-insert}
use ais_pkg.Validator.Messages.{
  RuleMap, MessageCache, or_empty, cached_rule, parse_error_message_tag, parse_and_cache,
  get_cached_error_message,
}
use ais_pkg.Validator.TypeCache.{
  StructField, FieldInfo, TypeCache, collect_fields, found_or_collected, get_fields_info,
}

-- Every entry of a map is what a function of its key computes.
abbrev pub Computed : {A : Type 0} → (Text → A) → List (Text × A) → Type 0
Computed f cache = (k : Text) (a : _) → lookup k cache ≡ some a → a ≡ f k

some_eq : {A : Type 0} (a b : A) → Path (Option A) (some a) (some b) → b ≡ a
some_eq a b h = cc

inserted :
    {A : Type 0} (f : Text → A) (k j : Text) (old : Option A) (a : A)
    → (old ≡ some a → a ≡ f j)
    → (if text_eq k j then some (f k) else old) ≡ some a
    → a ≡ f j
inserted f k j old a before h = elim (Bool-cases (text_eq k j)) [
  | inl e ↦ rw (← text_eq→eq k j e) (some_eq (f k) a (rw e at h))
  | inr e ↦ before (rw e at h)
]

insert-Computed :
    {A : Type 0} (f : Text → A) (k : Text) (cache : List (Text × A))
    → Computed f cache
    → Computed f (insert k (f k) cache)
insert-Computed f k cache good j a h =
    inserted f k j (lookup j cache) a (good j a) (rw (lookup-insert k j (f k) cache) at h)

-- The message of a rule, without a cache.
abbrev pub message_of : Text → Text → Text
message_of tag rule =
    if is_empty tag then [] else or_empty (lookup rule (parse_error_message_tag tag))

parsed :
    (tag rule : Text) (cache : MessageCache) (found : Option Text)
    → Computed parse_error_message_tag cache
    → ((m : Text) → found ≡ some m → lookup rule (parse_error_message_tag tag) ≡ some m)
    → ((parse_and_cache tag rule cache found).0
        ≡ or_empty (lookup rule (parse_error_message_tag tag)))
      × Computed parse_error_message_tag (parse_and_cache tag rule cache found).1
parsed tag rule cache none good in_cache =
    (refl, insert-Computed parse_error_message_tag tag cache good)
parsed tag rule cache (some m) good in_cache = (rw (in_cache m refl) refl, good)

found_rule :
    (tag rule : Text) (entry : Option RuleMap)
    → ((rules : RuleMap) → entry ≡ some rules → rules ≡ parse_error_message_tag tag)
    → (m : Text) → cached_rule rule entry ≡ some m
    → lookup rule (parse_error_message_tag tag) ≡ some m
found_rule tag rule none good m h = absurd (cc)
found_rule tag rule (some rules) good m h = rw (← good rules refl) h

-- From a cache whose entries are what parseErrorMessageTag gives for their tags,
-- getCachedErrorMessage answers as if it parsed the tag each time, and leaves such a cache.
pub get_cached_error_message-Computed :
    (tag rule : Text) (cache : MessageCache)
    → Computed parse_error_message_tag cache
    → ((get_cached_error_message tag rule cache).0 ≡ message_of tag rule)
      × Computed parse_error_message_tag (get_cached_error_message tag rule cache).1
unfolding get_cached_error_message
get_cached_error_message-Computed [] rule cache good = (refl, good)
get_cached_error_message-Computed (c ∷ tag) rule cache good =
    parsed (c ∷ tag) rule cache (cached_rule rule (lookup (c ∷ tag) cache)) good
      (found_rule (c ∷ tag) rule (lookup (c ∷ tag) cache) (good (c ∷ tag)))

-- The same of getFieldsInfo and the fields of a type.
pub get_fields_info-Computed :
    (struct_fields : Text → List StructField) (typ : Text) (cache : TypeCache)
    → Computed (λ t. collect_fields (struct_fields t)) cache
    → ((get_fields_info struct_fields typ cache).0 ≡ collect_fields (struct_fields typ))
      × Computed (λ t. collect_fields (struct_fields t)) (get_fields_info struct_fields typ cache).1
unfolding get_fields_info
get_fields_info-Computed struct_fields typ cache good = looked (lookup typ cache) (good typ)
  where
    looked :
        (entry : Option (List FieldInfo))
        → ((info : List FieldInfo) → entry ≡ some info → info ≡ collect_fields (struct_fields typ))
        → ((found_or_collected typ (collect_fields (struct_fields typ)) cache entry).0
            ≡ collect_fields (struct_fields typ))
          × Computed
              (λ t. collect_fields (struct_fields t))
              (found_or_collected typ (collect_fields (struct_fields typ)) cache entry).1
    looked none same =
        (refl, insert-Computed (λ t. collect_fields (struct_fields t)) typ cache good)
    looked (some info) same = (same info refl, good)
