-- ===== src/Validator/Messages.antt =====
-- validator/types.go, and the messages of tags in validator/validator.go.
use ais_pkg.Prelude.{
  ℕ, Bool, not, List, [], ◌∷◌, ◌++◌, Option, some, none, is_empty, ◌==◌, if◌then◌else◌,
}
use ais_pkg.Prelude.Text.{Text, trim_space, split}
use ais_pkg.Prelude.Maps.{lookup, insert}

-- ValidationError: the messages of each field.
abbrev pub ValidationError : Type 0
ValidationError = List (Text × List Text)

-- The value of a map that is absent is empty.
abbrev pub or_empty : {A : Type 0} → Option (List A) → List A
or_empty none = []
or_empty (some xs) = xs

-- ValidationError.HasErrors
unfoldable pub has_errors : ValidationError → Bool
has_errors errors = not (is_empty errors)

-- ValidationError.Get
unfoldable pub get : ValidationError → Text → List Text
unfolding lookup
get errors field = or_empty (lookup field errors)

-- ValidationError.Add
unfoldable pub add : Text → Text → ValidationError → ValidationError
unfolding get insert
add field message errors = insert field (get errors field ++ message ∷ []) errors

abbrev pub onto_key : ℕ → Text × Option Text → Text × Option Text
onto_key c (key, rest) = (c ∷ key, rest)

-- strings.SplitN(s, sep, 2): the first part, and the second if there is one
abbrev pub split_two : ℕ → Text → Text × Option Text
split_two sep [] = ([], none)
split_two sep (c ∷ s) =
    let rest = split_two sep s in if c == sep then ([], some s) else onto_key c rest

abbrev pub RuleMap : Type 0
RuleMap = List (Text × Text)

unfoldable pub add_rule : Text × Option Text → RuleMap → RuleMap
unfolding insert trim_space
add_rule (key, none) rules = rules
add_rule (key, some message) rules = insert (trim_space key) (trim_space message) rules

-- The loop of parseErrorMessageTag, with the map so far.
unfoldable pub rule_loop : List Text → RuleMap → RuleMap
unfolding add_rule
rule_loop [] rules = rules
rule_loop (part ∷ parts) rules = rule_loop parts (add_rule (split_two b':' part) rules)

-- parseErrorMessageTag
unfoldable pub parse_error_message_tag : Text → RuleMap
unfolding rule_loop
parse_error_message_tag tag = rule_loop (split b'|' tag) []

abbrev pub MessageCache : Type 0
MessageCache = List (Text × RuleMap)

-- The message of a rule in the cache.
abbrev pub cached_rule : Text → Option RuleMap → Option Text
cached_rule rule none = none
cached_rule rule (some rules) = lookup rule rules

-- The part of getCachedErrorMessage behind the cache. The second look at it under the lock is the
-- same when no one else wrote.
abbrev pub parse_and_cache : Text → Text → MessageCache → Option Text → Text × MessageCache
parse_and_cache tag rule cache (some message) = (message, cache)
parse_and_cache tag rule cache none =
    let rules = parse_error_message_tag tag in
    (or_empty (lookup rule rules), insert tag rules cache)

-- getCachedErrorMessage, with the cache afterwards
unfoldable pub get_cached_error_message : Text → Text → MessageCache → Text × MessageCache
unfolding lookup insert parse_error_message_tag
get_cached_error_message tag rule cache =
    if is_empty tag
    then ([], cache)
    else parse_and_cache tag rule cache (cached_rule rule (lookup tag cache))
