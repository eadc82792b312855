-- ===== src/Shutdown/Hooks.antt =====
-- shutdown/shutdown.go: hook entries and their grouping by priority.
use ais_pkg.Prelude.{List, [], ◌∷◌, ◌++◌, not, if◌then◌else◌}
use ais_pkg.Prelude.Text.{Text}
use ais_pkg.Prelude.Int.{ℤ, pos, eqb_ℤ}

-- hookEntry; the hook itself is an identity, since what it does is the environment's.
pub record HookEntry (H : Type 0) : Type 0 where
  pub name : Text
  pub hook : H
  pub priority : ℤ

-- hookGroup
pub record HookGroup (H : Type 0) : Type 0 where
  pub priority : ℤ
  pub hooks : List (HookEntry H)

module _ {H : Type 0} where
  -- The loop of groupByPriority, with the current group and the entries that are left.
  unfoldable pub group_from : ℤ → List (HookEntry H) → List (HookEntry H) → List (HookGroup H)
  group_from current group [] = record { priority = current; hooks = group } ∷ []
  group_from current group (h ∷ hs) =
      let closed =
        record { priority = current; hooks = group } ∷ group_from h.priority (h ∷ []) hs in
      let open_group = group_from current (group ++ h ∷ []) hs in
      if not (eqb_ℤ h.priority current) then closed else open_group

  -- groupByPriority
  unfoldable pub group_by_priority : List (HookEntry H) → List (HookGroup H)
  unfolding group_from
  group_by_priority [] = []
  group_by_priority (h ∷ hs) = group_from h.priority [] (h ∷ hs)

-- PriorityNormal
abbrev pub priority_normal : ℤ
priority_normal = pos 500
