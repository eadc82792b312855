-- ===== src/Shutdown/Grouping.antt =====
-- The groups are the runs of equal priority of the sorted hooks.
use ais_pkg.Prelude.{
  true, ◌≡◌, ◌≢◌, refl, ap, ◌∙◌, arith, inl, inr, List, [], ◌∷◌, ◌++◌, All, All-append, Bool-cases,
}
use ais_pkg.Prelude.Int.{ℤ, ◌≤ℤ◌, ◌<ℤ◌, eqb_ℤ}
use ais_pkg.Shutdown.Hooks.{HookEntry, HookGroup, group_from, group_by_priority}
use mathlib.Core.List.{append_assoc}

eqb_ℤ-refl : (a : ℤ) → eqb_ℤ a a ≡ true
eqb_ℤ-refl a = ground arith

append-ne-nil {ℓ} : {A : Type ℓ} (xs : List A) (x : A) → xs ++ x ∷ [] ≢ []
append-ne-nil [] x = cc
append-ne-nil (y ∷ xs) x = cc

module _ {H : Type 0} where
  -- The hooks of the groups, in order.
  unfoldable pub members : List (HookGroup H) → List (HookEntry H)
  members [] = []
  members (g ∷ gs) = g.hooks ++ members gs

  abbrev pub Ascending : List (HookEntry H) → Type 0
  Ascending [] = Unit {0}
  Ascending (h ∷ hs) = All (λ k. h.priority ≤ℤ k.priority) hs × Ascending hs

  -- A group has hooks, and all are of its priority.
  pub record IsUniform (g : HookGroup H) : Type 0 where
    pub inhabited : g.hooks ≢ []
    pub same : All (λ h. h.priority ≡ g.priority) g.hooks

  -- The priorities of the groups rise strictly.
  abbrev pub Rising : List (HookGroup H) → Type 0
  Rising [] = Unit {0}
  Rising (g ∷ gs) = All (λ k. g.priority <ℤ k.priority) gs × Rising gs

  members-group_from :
      (p : ℤ) (group hs : List (HookEntry H)) → members (group_from p group hs) ≡ group ++ hs
  unfolding members group_from
  members-group_from p group [] = refl
  members-group_from p group (h ∷ hs) = elim (Bool-cases (eqb_ℤ h.priority p)) [
    | inl e ↦ rw e (members-group_from p (group ++ h ∷ []) hs ∙ append_assoc group (h ∷ []) hs)
    | inr e ↦ rw e (ap (λ l. group ++ l) (members-group_from h.priority (h ∷ []) hs))
  ]

  -- No hook is lost, doubled or moved by the grouping.
  pub members-group_by_priority : (hs : List (HookEntry H)) → members (group_by_priority hs) ≡ hs
  unfolding group_by_priority members
  members-group_by_priority [] = refl
  members-group_by_priority (h ∷ hs) = members-group_from h.priority [] (h ∷ hs)

  IsUniform-group_from :
      (p : ℤ) (group hs : List (HookEntry H))
      → group ≢ []
      → All (λ h. h.priority ≡ p) group
      → All IsUniform (group_from p group hs)
  unfolding group_from
  IsUniform-group_from p group [] ne same = (record { inhabited = ne; same = same }, tt)
  IsUniform-group_from p group (h ∷ hs) ne same = elim (Bool-cases (eqb_ℤ h.priority p)) [
    | inl e ↦ rw e (
        IsUniform-group_from p (group ++ h ∷ []) hs (append-ne-nil group h)
          (All-append (λ k. k.priority ≡ p) group (h ∷ []) same (ground arith, tt)))
    | inr e ↦ rw e (
      record { inhabited = ne; same = same },
      IsUniform-group_from h.priority (h ∷ []) hs (append-ne-nil [] h) (refl, tt),
    )
  ]

  AtLeast : ℤ → List (HookGroup H) → Type 0
  AtLeast q = All (λ g. q ≤ℤ g.priority)

  group_from-AtLeast :
      (q p : ℤ) (group hs : List (HookEntry H))
      → q ≤ℤ p
      → All (λ h. q ≤ℤ h.priority) hs
      → AtLeast q (group_from p group hs)
  unfolding group_from AtLeast
  group_from-AtLeast q p group [] le all = (le, tt)
  group_from-AtLeast q p group (h ∷ hs) le all = elim (Bool-cases (eqb_ℤ h.priority p)) [
    | inl e ↦ rw e (group_from-AtLeast q p (group ++ h ∷ []) hs le all.1)
    | inr e ↦ rw e (le, group_from-AtLeast q h.priority (h ∷ []) hs all.0 all.1)
  ]

  above :
      (p q : ℤ) (gs : List (HookGroup H)) → p <ℤ q → AtLeast q gs → All (λ g. p <ℤ g.priority) gs
  unfolding AtLeast
  above p q [] lt all = tt
  above p q (g ∷ gs) lt all = (omega arith, above p q gs lt all.1)

  group_from-Rising :
      (p : ℤ) (group hs : List (HookEntry H))
      → All (λ h. p ≤ℤ h.priority) hs
      → Ascending hs
      → Rising (group_from p group hs)
  unfolding group_from
  group_from-Rising p group [] all asc = (tt, tt)
  group_from-Rising p group (h ∷ hs) all asc = elim (Bool-cases (eqb_ℤ h.priority p)) [
    | inl e ↦ rw e (group_from-Rising p (group ++ h ∷ []) hs all.1 asc.1)
    | inr e ↦ rw e (
      above p h.priority _ (ground arith)
          (group_from-AtLeast h.priority h.priority (h ∷ []) hs (omega arith) asc.0),
      group_from-Rising h.priority (h ∷ []) hs asc.0 asc.1,
    )
  ]

  -- The groups of a list of hooks in ascending order hold exactly these hooks, in this order; each
  -- group has a hook, all of its hooks have the group's priority, and the priorities of the groups
  -- rise strictly, so that hooks of one priority are all in one group.
  pub group_by_priority_runs :
      (hs : List (HookEntry H))
      → Ascending hs
      → (members (group_by_priority hs) ≡ hs)
        × All IsUniform (group_by_priority hs)
        × Rising (group_by_priority hs)
  unfolding group_by_priority group_from
  group_by_priority_runs [] asc = (members-group_by_priority [], tt, tt)
  group_by_priority_runs (h ∷ hs) asc = (
    members-group_by_priority (h ∷ hs),
    rw (eqb_ℤ-refl h.priority)
        (IsUniform-group_from h.priority (h ∷ []) hs (append-ne-nil [] h) (refl, tt)),
    group_from-Rising h.priority [] (h ∷ hs) (omega arith, asc.0) asc,
  )
