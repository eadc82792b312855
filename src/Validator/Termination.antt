-- ===== src/Validator/Termination.antt =====
-- validateRecursive of validator/validator.go comes to an end, also where structs point in circles.
use ais_pkg.Prelude.{
  ℕ, zero, suc, ◌≡◌, ◌≤◌, ◌<◌, refl, ap, arith, Bool, true, false, ◌||◌, List, [], ◌∷◌, Option,
  some, none, inl, inr, Bool-cases, is_empty, ◌==◌, if◌then◌else◌,
}
use ais_pkg.Prelude.Text.{Text}
use ais_pkg.Validator.TypeCache.{TypeCache, FieldInfo}
use ais_pkg.Validator.Walk.{
  FieldValue, Object, structure, no_struct, FieldError, VarResult, valid, field_errors, other_error,
  Environment, State, add_messages, report, Visit, full_field_name, check_field, field_loop,
  validate_object, mem, marked, validate_recursive, Input, nil_interface, nil_pointer, not_pointer,
  struct_copy, pointer_to, start, walk, finish, validate,
}
use ais_pkg.Validator.Messages.{ValidationError, MessageCache}

-- How many of the pointers below `n` are not visited.
abbrev pub unvisited : ℕ → List ℕ → ℕ
unvisited zero v = 0
unvisited (suc n) v = let rest = unvisited n v in if mem n v then rest else suc rest

mark_le : (n p : ℕ) (v : List ℕ) → unvisited n (p ∷ v) ≤ unvisited n v
mark_le zero p v = omega arith
mark_le (suc n) p v = ground (arith, mark_le n p v)

count_here :
    (a b : Bool) (x y : ℕ)
    → a ≡ true
    → b ≡ false
    → x ≤ y
    → (if a || b then x else suc x) < (if b then y else suc y)
count_here a b x y ha hb le = ground arith

count_later :
    (a b : Bool) (x y : ℕ)
    → a ≡ false
    → x < y
    → (if a || b then x else suc x) < (if b then y else suc y)
count_later a b x y ha lt = ground arith

mark_lt : (n p : ℕ) (v : List ℕ) → p < n → mem p v ≡ false → unvisited n (p ∷ v) < unvisited n v
mark_lt zero p v lt h = absurd (omega (arith, lt))
mark_lt (suc n) p v lt h = elim (Bool-cases (n == p)) [
  | inl e ↦ count_here (n == p) (mem n v) _ _ e (rw (same e) h) (mark_le n p v)
  | inr e ↦ count_later (n == p) (mem n v) _ _ e (mark_lt n p v (ground arith) h)
]
  where
    same : (n == p) ≡ true → n ≡ p
    same e = ground arith

add_messages-visited :
    (info : FieldInfo) (full : Text) (more : List FieldError) (st : State)
    → (add_messages info full more st).visited ≡ st.visited
unfolding add_messages
add_messages-visited info full [] st = refl
add_messages-visited info full ((tag, text) ∷ more) st = add_messages-visited info full more _

pub report-visited :
    (info : FieldInfo) (full : Text) (r : VarResult) (st : State)
    → (report info full r st).visited ≡ st.visited
report-visited info full valid st = refl
report-visited info full (field_errors more) st = add_messages-visited info full more st
report-visited info full (other_error text) st = refl

-- A step ends, and no pointer is unvisited again.
abbrev pub Ends : ℕ → State → Option State → Type 0
Ends n st none = ⊥
Ends n st (some next) = unvisited n next.visited ≤ unvisited n st.visited

abbrev Measured : ℕ → ℕ → Visit → Type 0
Measured n k visit =
    (p : ℕ) (prefix : Text) (st : State)
    → p < n
    → unvisited n st.visited < k
    → Ends n st (visit p prefix st)

-- All pointers that fields hold are below `n`.
abbrev pub Bounded : {V : Type 0} → ℕ → Environment V → Type 0
Bounded n env =
    (p : ℕ) (typ : Text) (values : _)
    → env.object p ≡ structure typ values
    → (name : Text) → (values name).pointer < n

module _ {V : Type 0} (env : Environment V) (n k : ℕ) (visit : Visit)
    (ends : Measured n k visit) where
  check_field-Ends :
      (values : Text → FieldValue V) (prefix : Text) (info : FieldInfo) (st : State)
      → ((name : Text) → (values name).pointer < n)
      → unvisited n st.visited < k
      → Ends n st (check_field env visit values prefix info st)
  unfolding check_field
  check_field-Ends values prefix info st below fewer =
      if_Ends info.is_struct _ _
        (if_Ends info.is_ptr _ _
          (if_Ends (values info.name).is_nil _ _ (omega arith) (nested prefix info st below fewer))
          (nested prefix info st below fewer))
        (if_Ends (is_empty info.validate_tag) _ _ (omega arith) (
          rw
            (report-visited info (full_field_name prefix info.name)
              (env.var (values info.name).interface info.validate_tag) st)
            (omega arith)))
    where
      if_Ends :
          (b : Bool) (x y : Option State)
          → Ends n st x
          → Ends n st y
          → Ends n st (if b then x else y)
      if_Ends true x y hx hy = hx
      if_Ends false x y hx hy = hy

      nested :
          (prefix : Text) (info : FieldInfo) (st : State)
          → ((name : Text) → (values name).pointer < n)
          → unvisited n st.visited < k
          → Ends n st (visit (values info.name).pointer (full_field_name prefix info.name) st)
      nested prefix info st below fewer =
          ends (values info.name).pointer (full_field_name prefix info.name) st (below info.name)
            fewer

  after_field :
      (st : State) (checked : Option State) (go : State → Option State)
      → unvisited n st.visited < k
      → Ends n st checked
      → ((next : State) → unvisited n next.visited < k → Ends n next (go next))
      → Ends n st (elim checked [ none ↦ none | some next ↦ go next ])
  after_field st none go fewer done rest = done
  after_field st (some next) go fewer done rest =
      further next (go next) done (rest next (omega (arith, done, fewer)))
    where
      further :
          (next : State) (r : Option State)
          → unvisited n next.visited ≤ unvisited n st.visited
          → Ends n next r
          → Ends n st r
      further next none le h = h
      further next (some last) le h = omega (arith, le, h)

  field_loop-Ends :
      (values : Text → FieldValue V) (prefix : Text) (infos : List FieldInfo) (st : State)
      → ((name : Text) → (values name).pointer < n)
      → unvisited n st.visited < k
      → Ends n st (field_loop env visit values prefix infos st)
  unfolding field_loop
  field_loop-Ends values prefix [] st below fewer = omega arith
  field_loop-Ends values prefix (info ∷ infos) st below fewer =
      after_field st (check_field env visit values prefix info st)
        (field_loop env visit values prefix infos) fewer
        (check_field-Ends values prefix info st below fewer)
        (λ next. field_loop-Ends values prefix infos next below)

  validate_object-Ends :
      (object : Object V) (prefix : Text) (st : State)
      → ((typ : Text) (values : Text → FieldValue V)
          → object ≡ structure typ values
          → (name : Text) → (values name).pointer < n)
      → unvisited n st.visited < k
      → Ends n st (validate_object env visit object prefix st)
  validate_object-Ends no_struct prefix st below fewer = omega arith
  validate_object-Ends (structure typ values) prefix st below fewer =
      field_loop-Ends values prefix _ _ (below typ values refl) fewer

module _ {V : Type 0} (env : Environment V) (n : ℕ) (bounded : Bounded n env) where
  validate_recursive-Ends : (f : ℕ) → Measured n f (validate_recursive env f)
  unfolding validate_recursive
  validate_recursive-Ends zero p prefix st lt fewer = absurd (omega (arith, fewer))
  validate_recursive-Ends (suc f) p prefix st lt fewer = elim (Bool-cases (mem p st.visited)) [
    | inl e ↦ rw e (omega arith)
    | inr e ↦ rw e (
        unmarked _ (
          validate_object-Ends env n f (validate_recursive env f) (validate_recursive-Ends f)
            (env.object p) prefix (marked p st) (bounded p)
            (omega (arith, mark_lt n p st.visited lt e, fewer))))
  ]
    where
      unmarked : (r : Option State) → Ends n (marked p st) r → Ends n st r
      unmarked none h = h
      unmarked (some next) h = omega (arith, h, mark_le n p st.visited)

ended : (n : ℕ) (st : State) (r : Option State) → Ends n st r → (next : State) × (r ≡ some next)
ended n st none h = absurd h
ended n st (some next) h = (next, refl)

unvisited_start : (n : ℕ) → unvisited n [] ≡ n
unvisited_start zero = refl
unvisited_start (suc n) = omega (arith, unvisited_start n)

-- The pointer that Validate is called with is below `n`.
abbrev pub InputBelow : ℕ → Input → Type 0
InputBelow n nil_interface = Unit {0}
InputBelow n nil_pointer = Unit {0}
InputBelow n not_pointer = Unit {0}
InputBelow n (struct_copy p) = p < n
InputBelow n (pointer_to p) = p < n

walk_ends :
    {V : Type 0} (env : Environment V) (n f : ℕ) (s : Input) (st : State)
    → Bounded n env
    → InputBelow n s
    → unvisited n st.visited < f
    → (next : State) × (walk env f s st ≡ some next)
walk_ends env n f nil_interface st bounded below fuel = (st, refl)
walk_ends env n f nil_pointer st bounded below fuel = (st, refl)
walk_ends env n f not_pointer st bounded below fuel = (st, refl)
walk_ends env n f (struct_copy p) st bounded below fuel =
    ended n st _ (validate_recursive-Ends env n bounded f p [] st below fuel)
walk_ends env n f (pointer_to p) st bounded below fuel =
    ended n st _ (validate_recursive-Ends env n bounded f p [] st below fuel)

-- Validate comes to an end, whatever structs point to each other: if the pointers that the input
-- and the fields hold are below `n`, a recursion depth above `n` is enough for a result.
pub validate_ends :
    {V : Type 0} (env : Environment V) (n f : ℕ) (s : Input) (types : TypeCache)
    (messages : MessageCache)
    → Bounded n env
    → InputBelow n s
    → n < f
    → (result : Option ValidationError × State) × (validate env f s types messages ≡ some result)
unfolding validate
validate_ends env n f s types messages bounded below fuel =
    let (next, e) =
      walk_ends env n f s (start types messages) bounded below
        (omega (arith, unvisited_start n, fuel)) in
    (_, ap finish e)
