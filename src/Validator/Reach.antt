-- ===== src/Validator/Reach.antt =====
-- The walk of validator/validator.go reaches every struct that the input leads to.
use ais_pkg.Prelude.{
  ℕ, zero, suc, ◌≡◌, ◌⊎◌, refl, arith, Bool, true, false, List, [], ◌∷◌, Option, some, none, inl,
  inr, Bool-cases, is_empty, ◌==◌, if◌then◌else◌, All,
}
use ais_pkg.Prelude.Text.{Text}
use ais_pkg.Validator.TypeCache.{FieldInfo, get_fields_info}
use ais_pkg.Validator.Walk.{
  FieldValue, Object, structure, no_struct, VarResult, Environment, State, report, Visit,
  full_field_name, check_field, field_loop, validate_object, mem, marked, validate_recursive,
}
use ais_pkg.Validator.Caching.{Computed, get_fields_info-Computed}
use ais_pkg.Validator.Termination.{report-visited}
use ais_pkg.Validator.Coverage.{
  fields_of, GoodField, Good, Step, report-clean, report-types, Step-refl, Step-trans,
  GoodField-grows,
}

module _ {V : Type 0} (env : Environment V) where
  -- A part of the walk that ends makes a step, and a fact follows from its having no errors.
  abbrev pub Steps : State → (State → Type 0) → Option State → Type 0
  Steps st P none = Unit {0}
  Steps st P (some next) =
      Step env st next × (next.errors ≡ [] → Computed (fields_of env) st.type_cache → P next)

  abbrev VisitSteps : Visit → Type 0
  VisitSteps visit =
      (p : ℕ) (prefix : Text) (st : State)
      → Steps st (λ next. mem p next.visited ≡ true) (visit p prefix st)

  Steps-map :
      (st : State) (P Q : State → Type 0) (r : Option State)
      → ((next : State) → P next → Q next)
      → Steps st P r
      → Steps st Q r
  Steps-map st P Q none f h = tt
  Steps-map st P Q (some next) f h = (h.0, λ e k. f next (h.1 e k))

  Steps-if :
      (st : State) (P : State → Type 0) (b : Bool) (x y : Option State)
      → (b ≡ true → Steps st P x)
      → (b ≡ false → Steps st P y)
      → Steps st P (if b then x else y)
  Steps-if st P true x y hx hy = hx refl
  Steps-if st P false x y hx hy = hy refl

  report-Step :
      (info : FieldInfo) (full : Text) (r : VarResult) (st : State)
      → Step env st (report info full r st)
  report-Step info full r st = record {
    grows = λ x h. rw (report-visited info full r st) h;
    types = λ h. rw (report-types info full r st) h;
    clean = λ h. (report-clean info full r st h).0;
    good = λ h k x m. inl (rw (report-visited info full r st) at m);
  }

  module _ (visit : Visit) (steps : VisitSteps visit) (values : Text → FieldValue V) where
    abbrev Fine : FieldInfo → State → Type 0
    Fine info next = GoodField env next.visited values info

    check_field-Steps :
        (prefix : Text) (info : FieldInfo) (st : State)
        → Steps st (Fine info) (check_field env visit values prefix info st)
    unfolding check_field
    check_field-Steps prefix info st =
        let full = full_field_name prefix info.name in
        let target = (values info.name).pointer in
        let r = env.var (values info.name).interface info.validate_tag in
        Steps-if st (Fine info) info.is_struct _ _
          (λ s.
            Steps-if st (Fine info) info.is_ptr _ _
              (λ i.
                Steps-if st (Fine info) (values info.name).is_nil _ _
                  (λ nil. (Step-refl env st, λ e k. inl (s, inl (i, nil))))
                  (λ _.
                    Steps-map st _ (Fine info) _ (λ next m. inl (s, inr m)) (steps target full st)))
              (λ _. Steps-map st _ (Fine info) _ (λ next m. inl (s, inr m)) (steps target full st)))
          (λ s.
            Steps-if st (Fine info) (is_empty info.validate_tag) _ _
              (λ t. (Step-refl env st, λ e k. inr (s, inl t)))
              (λ _. (
                report-Step info full r st,
                λ e k. inr (s, inr (report-clean info full r st e).1),
              )))

    abbrev AllFine : List FieldInfo → State → Type 0
    AllFine infos next = All (GoodField env next.visited values) infos

    -- A field and then the rest of them.
    one_more :
        (st mid : State) (info : FieldInfo) (infos : List FieldInfo) (r : Option State)
        → Steps st (Fine info) (some mid)
        → Steps mid (AllFine infos) r
        → Steps st (AllFine (info ∷ infos)) r
    one_more st mid info infos none h k = tt
    one_more st mid info infos (some next) h k = (
      Step-trans env st mid next h.0 k.0,
      λ e t. (
        GoodField-grows env mid.visited next.visited values info k.0.grows (h.1 (k.0.clean e) t),
        k.1 e (h.0.types t),
      ),
    )

    after_field :
        (st : State) (info : FieldInfo) (infos : List FieldInfo) (checked : Option State)
        (go : State → Option State)
        → Steps st (Fine info) checked
        → ((mid : State) → Steps mid (AllFine infos) (go mid))
        → Steps st (AllFine (info ∷ infos)) (elim checked [ none ↦ none | some mid ↦ go mid ])
    after_field st info infos none go h k = tt
    after_field st info infos (some mid) go h k = one_more st mid info infos (go mid) h (k mid)

    field_loop-Steps :
        (prefix : Text) (infos : List FieldInfo) (st : State)
        → Steps st (AllFine infos) (field_loop env visit values prefix infos st)
    unfolding field_loop
    field_loop-Steps prefix [] st = (Step-refl env st, λ e k. tt)
    field_loop-Steps prefix (info ∷ infos) st =
        after_field st info infos (check_field env visit values prefix info st)
          (field_loop env visit values prefix infos) (check_field-Steps prefix info st)
          (field_loop-Steps prefix infos)

  -- The step that looks a type up in the cache.
  cached-Step :
      (st : State) (typ : Text)
      → Step env st
          (record st { type_cache = (get_fields_info env.struct_fields typ st.type_cache).1 })
  cached-Step st typ = record {
    grows = λ x h. h;
    types = λ h. (get_fields_info-Computed env.struct_fields typ st.type_cache h).1;
    clean = λ h. h;
    good = λ h k x m. inl m;
  }

  -- All fields of an object are good.
  abbrev ObjectGood : Object V → State → Type 0
  ObjectGood object next =
      (typ : Text) (values : Text → FieldValue V)
      → object ≡ structure typ values
      → All (GoodField env next.visited values) (fields_of env typ)

  validate_object-Steps :
      (visit : Visit)
      → VisitSteps visit
      → (object : Object V) (prefix : Text) (st : State)
      → Steps st (ObjectGood object) (validate_object env visit object prefix st)
  validate_object-Steps visit steps no_struct prefix st =
      (Step-refl env st, λ e k typ values q. absurd (cc))
  validate_object-Steps visit steps (structure typ values) prefix st =
      looked _ (field_loop-Steps visit steps values prefix _ _)
    where
      looked :
          (r : Option State)
          → Steps
              (record st { type_cache = (get_fields_info env.struct_fields typ st.type_cache).1 })
              (AllFine visit steps values (get_fields_info env.struct_fields typ st.type_cache).0)
              r
          → Steps st (ObjectGood (structure typ values)) r
      looked none h = tt
      looked (some next) h = (
        Step-trans env st _ next (cached-Step st typ) h.0,
        λ e k. same next (
            let info = get_fields_info-Computed env.struct_fields typ st.type_cache k in
            rw (info.0) at (h.1 e info.1)),
      )
        where
          same :
              (next : State)
              → All (GoodField env next.visited values) (fields_of env typ)
              → ObjectGood (structure typ values) next
          same next good t v q =
              let e1 : typ ≡ t = cc in let e2 : values ≡ v = cc in rw (← e1, ← e2) good

  first_mark : (p : ℕ) (vis : List ℕ) → mem p (p ∷ vis) ≡ true
  first_mark p vis = ground arith

  pub validate_recursive-Steps : (f : ℕ) → VisitSteps (validate_recursive env f)
  unfolding validate_recursive
  validate_recursive-Steps zero p prefix st = tt
  validate_recursive-Steps (suc f) p prefix st =
      Steps-if st (λ next. mem p next.visited ≡ true) (mem p st.visited) _ _
        (λ m. (Step-refl env st, λ e k. m))
        (λ _. unmarked _ (
          validate_object-Steps (validate_recursive env f) (validate_recursive-Steps f)
            (env.object p) prefix (marked p st)))
    where
      unmarked :
          (r : Option State)
          → Steps (marked p st) (ObjectGood (env.object p)) r
          → Steps st (λ next. mem p next.visited ≡ true) r
      unmarked none h = tt
      unmarked (some next) h = (
        record {
          grows = λ x m. h.0.grows x (ground arith);
          types = h.0.types;
          clean = h.0.clean;
          good = λ e k x m. fresh x (h.0.good e k x m) (h.1 e k);
        },
        λ e k. h.0.grows p (first_mark p st.visited),
      )
        where
          fresh :
              (x : ℕ)
              → (mem x (p ∷ st.visited) ≡ true) ⊎ Good env next.visited x
              → ObjectGood (env.object p) next
              → (mem x st.visited ≡ true) ⊎ Good env next.visited x
          fresh x (inr g) own = inr g
          fresh x (inl m) own = elim (Bool-cases (x == p)) [
            | inl e ↦ inr (λ typ values q. own typ values (rw (same x e) at q))
            | inr e ↦ inl (ground arith)
          ]
            where
              same : (x : ℕ) → (x == p) ≡ true → x ≡ p
              same x e = ground arith
