-- ===== src/Validator/Valid.antt =====
-- A result of Validate of validator/validator.go without errors, for all that the input leads to.
use mathlib.Core.List.{Memᴰ}
use ais_pkg.Prelude.{
  ℕ, ◌≡◌, ◌⊎◌, refl, ap, true, false, not, List, [], ◌∷◌, Option, some, none, inl, inr, is_empty,
  if◌then◌else◌, All,
}
use ais_pkg.Prelude.Text.{Text}
use ais_pkg.Validator.Messages.{ValidationError, has_errors, MessageCache}
use ais_pkg.Validator.TypeCache.{FieldInfo, TypeCache}
use ais_pkg.Validator.Walk.{
  FieldValue, structure, Environment, State, mem, validate_recursive, Input, nil_interface,
  nil_pointer, not_pointer, struct_copy, pointer_to, start, walk, finish, validate,
}
use ais_pkg.Validator.Caching.{Computed}
use ais_pkg.Validator.Coverage.{Passes, fields_of, GoodField, Good}
use ais_pkg.Validator.Reach.{Steps, validate_recursive-Steps}

-- The pointer that Validate walks from.
abbrev pub StartsAt : Input → ℕ → Type 0
StartsAt nil_interface p = ⊥
StartsAt nil_pointer p = ⊥
StartsAt not_pointer p = ⊥
StartsAt (struct_copy q) p = q ≡ p
StartsAt (pointer_to q) p = q ≡ p

-- A pointer leads to another through exported fields that are structs or pointers to structs that
-- are not nil.
pub data Leads {V : Type 0} (env : Environment V) (p : ℕ) : ℕ → Type 0 where
  here : Leads env p p
  through :
      {q : ℕ} (typ : Text) (values : Text → FieldValue V) (info : FieldInfo)
      → Leads env p q
      → env.object q ≡ structure typ values
      → Memᴰ info (fields_of env typ)
      → info.is_struct ≡ true
      → (info.is_ptr ≡ false) ⊎ ((values info.name).is_nil ≡ false)
      → Leads env p (values info.name).pointer

All-Memᴰ : {A : Type 0} (P : A → Type 0) (x : A) (xs : List A) → All P xs → Memᴰ x xs → P x
All-Memᴰ P x xs h (Memᴰ.head e) = rw e (h.0)
All-Memᴰ P x xs h (Memᴰ.tail m) = All-Memᴰ P x _ h.1 m

module _ {V : Type 0} (env : Environment V) (vis : List ℕ) where
  nested_visited :
      (values : Text → FieldValue V) (info : FieldInfo)
      → GoodField env vis values info
      → info.is_struct ≡ true
      → (info.is_ptr ≡ false) ⊎ ((values info.name).is_nil ≡ false)
      → mem (values info.name).pointer vis ≡ true
  nested_visited values info (inl (s, inr m)) h k = m
  nested_visited values info (inl (s, inl (i, nil))) h (inl k) = absurd (cc)
  nested_visited values info (inl (s, inl (i, nil))) h (inr k) = absurd (cc)
  nested_visited values info (inr (s, t)) h k = absurd (cc)

  Leads-visited :
      (p q : ℕ)
      → ((x : ℕ) → mem x vis ≡ true → Good env vis x)
      → mem p vis ≡ true
      → Leads env p q
      → mem q vis ≡ true
  Leads-visited p q good m here = m
  Leads-visited p q good m (through {q = r} typ values info before object picked is_struct set) =
      nested_visited values info
        (All-Memᴰ (GoodField env vis values) info (fields_of env typ)
          (good r (Leads-visited p r good m before) typ values object) picked)
        is_struct set

  plain-Passes :
      (values : Text → FieldValue V) (info : FieldInfo)
      → GoodField env vis values info
      → info.is_struct ≡ false
      → is_empty info.validate_tag ≡ false
      → Passes (env.var (values info.name).interface info.validate_tag)
  plain-Passes values info (inl (s, m)) h k = absurd (cc)
  plain-Passes values info (inr (s, inl t)) h k = absurd (cc)
  plain-Passes values info (inr (s, inr passes)) h k = passes

no_error :
    (st : State) → (if has_errors st.errors then some st.errors else none) ≡ none → st.errors ≡ []
unfolding has_errors
no_error st h = emptied st.errors h
  where
    emptied :
        (errors : ValidationError)
        → (if not (is_empty errors) then some errors else none) ≡ none
        → errors ≡ []
    emptied [] h = refl
    emptied (e ∷ errors) h = absurd (cc)

finished :
    (r : Option State) (st : State) → finish r ≡ some (none, st) → (r ≡ some st) × (st.errors ≡ [])
finished none st h = absurd (cc)
finished (some next) st h =
    let same : next ≡ st = cc in (ap some same, rw (← same) (no_error next (cc)))

walked :
    {V : Type 0} (env : Environment V) (f : ℕ) (s : Input) (p : ℕ) (st next : State)
    → StartsAt s p
    → walk env f s st ≡ some next
    → validate_recursive env f p [] st ≡ some next
walked env f nil_interface p st next at h = absurd at
walked env f nil_pointer p st next at h = absurd at
walked env f not_pointer p st next at h = absurd at
walked env f (struct_copy q) p st next at h = rw (← at) h
walked env f (pointer_to q) p st next at h = rw (← at) h

-- After a walk without errors all that is visited is good, and the start is visited.
walk-Good :
    {V : Type 0} (env : Environment V) (f p : ℕ) (types : TypeCache) (messages : MessageCache)
    (next : State)
    → Computed (fields_of env) types
    → validate_recursive env f p [] (start types messages) ≡ some next
    → next.errors ≡ []
    → (mem p next.visited ≡ true) × ((x : ℕ) → mem x next.visited ≡ true → Good env next.visited x)
walk-Good env f p types messages next good h clean =
    let steps : Steps env (start types messages) (λ n. mem p n.visited ≡ true) (some next) =
      rw h at (validate_recursive-Steps env f p [] (start types messages)) in
    (steps.1 clean good, λ x m. was_new x (steps.0.good clean good x m))
  where
    was_new : (x : ℕ) → (mem x [] ≡ true) ⊎ Good env next.visited x → Good env next.visited x
    was_new x (inl m) = absurd (cc)
    was_new x (inr g) = g

-- If Validate returns no error, every field with a tag of every struct that the input leads to
-- passes Var under its tag: through exported fields that are structs or pointers to structs, in
-- circles too. The cached fields of types are those of the types; a field that is itself a struct,
-- or a pointer to one, is followed, and its tag is not looked at.
pub validate-Passes :
    {V : Type 0} (env : Environment V) (f : ℕ) (s : Input) (types : TypeCache)
    (messages : MessageCache) (st : State) (p q : ℕ) (typ : Text) (values : Text → FieldValue V)
    (info : FieldInfo)
    → Computed (fields_of env) types
    → validate env f s types messages ≡ some (none, st)
    → StartsAt s p
    → Leads env p q
    → env.object q ≡ structure typ values
    → Memᴰ info (fields_of env typ)
    → info.is_struct ≡ false
    → is_empty info.validate_tag ≡ false
    → Passes (env.var (values info.name).interface info.validate_tag)
unfolding validate
validate-Passes env f s types messages st p q typ values info cached h begins leads object picked
      plain tagged =
    let (ended, clean) = finished _ st h in
    let (first, good) =
      walk-Good env f p types messages st cached
        (walked env f s p (start types messages) st begins ended) clean in
    plain-Passes env st.visited values info
      (All-Memᴰ (GoodField env st.visited values) info (fields_of env typ)
        (good q (Leads-visited env st.visited p q good first leads) typ values object) picked)
      plain tagged
