-- ===== src/Validator/Coverage.antt =====
-- What a result of Validate without errors says: the walk of validator/validator.go reaches every
-- struct that the input leads to.
use ais_pkg.Prelude.{
  ℕ, ◌≡◌, ◌⊎◌, refl, Bool, true, false, List, [], ◌∷◌, inl, inr, is_empty, if◌then◌else◌, All,
}
use ais_pkg.Prelude.Text.{Text, text_eq}
use ais_pkg.Prelude.Maps.{insert}
use ais_pkg.Validator.Messages.{ValidationError, add}
use ais_pkg.Validator.TypeCache.{FieldInfo, collect_fields}
use ais_pkg.Validator.Walk.{
  FieldValue, structure, FieldError, VarResult, valid, field_errors, other_error, Environment,
  State, add_messages, report, mem,
}
use ais_pkg.Validator.Caching.{Computed}

-- Var finds nothing.
abbrev pub Passes : VarResult → Type 0
Passes valid = Unit {0}
Passes (field_errors []) = Unit {0}
Passes (field_errors (e ∷ es)) = ⊥
Passes (other_error text) = ⊥

insert-nonempty : {V : Type 0} (k : Text) (v : V) (m : List (Text × V)) → insert k v m ≡ [] → ⊥
unfolding insert
insert-nonempty k v [] h = cc
insert-nonempty k v ((j, w) ∷ m) h = either (text_eq j k) h
  where
    either : (b : Bool) → (if b then (k, v) ∷ m else (j, w) ∷ insert k v m) ≡ [] → ⊥
    either true h = cc
    either false h = cc

add-nonempty : (field message : Text) (errors : ValidationError) → add field message errors ≡ [] → ⊥
unfolding add
add-nonempty field message errors h = insert-nonempty field _ errors h

add_messages-clean :
    (info : FieldInfo) (full : Text) (more : List FieldError) (st : State)
    → (add_messages info full more st).errors ≡ []
    → (st.errors ≡ []) × Passes (field_errors more)
unfolding add_messages
add_messages-clean info full [] st h = (h, tt)
add_messages-clean info full ((tag, text) ∷ more) st h =
    absurd (add-nonempty full _ st.errors (add_messages-clean info full more _ h).0)

pub report-clean :
    (info : FieldInfo) (full : Text) (r : VarResult) (st : State)
    → (report info full r st).errors ≡ []
    → (st.errors ≡ []) × Passes r
report-clean info full valid st h = (h, tt)
report-clean info full (field_errors more) st h = add_messages-clean info full more st h
report-clean info full (other_error text) st h = absurd (add-nonempty full text st.errors h)

add_messages-types :
    (info : FieldInfo) (full : Text) (more : List FieldError) (st : State)
    → (add_messages info full more st).type_cache ≡ st.type_cache
unfolding add_messages
add_messages-types info full [] st = refl
add_messages-types info full ((tag, text) ∷ more) st = add_messages-types info full more _

pub report-types :
    (info : FieldInfo) (full : Text) (r : VarResult) (st : State)
    → (report info full r st).type_cache ≡ st.type_cache
report-types info full valid st = refl
report-types info full (field_errors more) st = add_messages-types info full more st
report-types info full (other_error text) st = refl

module _ {V : Type 0} (env : Environment V) where
  abbrev pub fields_of : Text → List FieldInfo
  fields_of typ = collect_fields (env.struct_fields typ)

  -- The field has nothing to report, and what it leads to is among the visited.
  abbrev pub GoodField : List ℕ → (Text → FieldValue V) → FieldInfo → Type 0
  GoodField vis values info =
      ((info.is_struct ≡ true)
        × (((info.is_ptr ≡ true) × ((values info.name).is_nil ≡ true))
            ⊎ (mem (values info.name).pointer vis ≡ true)))
      ⊎ ((info.is_struct ≡ false)
          × ((is_empty info.validate_tag ≡ true)
              ⊎ Passes (env.var (values info.name).interface info.validate_tag)))

  abbrev pub Good : List ℕ → ℕ → Type 0
  Good vis p =
      (typ : Text) (values : Text → FieldValue V)
      → env.object p ≡ structure typ values
      → All (GoodField vis values) (fields_of typ)

  -- What a part of the walk does to the state.
  pub record Step (st next : State) : Type 0 where
    pub grows : (x : ℕ) → mem x st.visited ≡ true → mem x next.visited ≡ true
    pub types : Computed fields_of st.type_cache → Computed fields_of next.type_cache
    pub clean : next.errors ≡ [] → st.errors ≡ []
    pub good :
        next.errors ≡ []
        → Computed fields_of st.type_cache
        → (x : ℕ) → mem x next.visited ≡ true
        → (mem x st.visited ≡ true) ⊎ Good next.visited x

  pub GoodField-grows :
      (v w : List ℕ) (values : Text → FieldValue V) (info : FieldInfo)
      → ((x : ℕ) → mem x v ≡ true → mem x w ≡ true)
      → GoodField v values info
      → GoodField w values info
  GoodField-grows v w values info more (inl (s, inl nil)) = inl (s, inl nil)
  GoodField-grows v w values info more (inl (s, inr h)) =
      inl (s, inr (more (values info.name).pointer h))
  GoodField-grows v w values info more (inr h) = inr h

  pub fields-grow :
      (v w : List ℕ) (values : Text → FieldValue V) (infos : List FieldInfo)
      → ((x : ℕ) → mem x v ≡ true → mem x w ≡ true)
      → All (GoodField v values) infos
      → All (GoodField w values) infos
  fields-grow v w values [] more h = tt
  fields-grow v w values (info ∷ infos) more h =
      (GoodField-grows v w values info more h.0, fields-grow v w values infos more h.1)

  pub Step-refl : (st : State) → Step st st
  Step-refl st = record {
    grows = λ x h. h;
    types = λ h. h;
    clean = λ h. h;
    good = λ h k x m. inl m;
  }

  pub Step-trans : (a b c : State) → Step a b → Step b c → Step a c
  Step-trans a b c first second = record {
    grows = λ x h. second.grows x (first.grows x h);
    types = λ h. second.types (first.types h);
    clean = λ h. first.clean (second.clean h);
    good = λ h k x m. earlier h k x (second.good h (first.types k) x m);
  }
    where
      earlier :
          c.errors ≡ []
          → Computed fields_of a.type_cache
          → (x : ℕ) → (mem x b.visited ≡ true) ⊎ Good c.visited x
          → (mem x a.visited ≡ true) ⊎ Good c.visited x
      earlier h k x (inl m) = old (first.good (second.clean h) k x m)
        where
          old :
              (mem x a.visited ≡ true) ⊎ Good b.visited x
              → (mem x a.visited ≡ true) ⊎ Good c.visited x
          old (inl m) = inl m
          old (inr g) = inr (λ typ values e.
              fields-grow b.visited c.visited values (fields_of typ) second.grows (g typ values e))
      earlier h k x (inr g) = inr g
