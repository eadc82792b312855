-- ===== src/Tests/Shutdown.antt =====
-- shutdown/shutdown.go with two hooks that were registered in the other order than they run in.
use mathlib.Core.List.{Perm}
use mathlib.Core.List.Perm
use ais_pkg.Prelude.{
  ℕ, zero, suc, ◌≡◌, refl, arith, true, false, List, [], ◌∷◌, some, if◌then◌else◌,
}
use ais_pkg.Prelude.Int.{pos, leb_ℤ}
use ais_pkg.Shutdown.Hooks.{HookEntry, group_by_priority, group_from}
use ais_pkg.Shutdown.Manager.{
  Manager, finished, GroupRun, Outcome, execute_hook_group, collect, run_groups, perform_shutdown,
  shutdown, is_shutdown,
}
use ais_pkg.Shutdown.Ordering.{Sorts, Enough, RanInOrder, shutdown-RanInOrder, shutdown_runs_all}

abbrev late_hook : HookEntry ℕ
late_hook = record { name = b'l' ∷ []; hook = 1; priority = pos 500 }

abbrev early_hook : HookEntry ℕ
early_hook = record { name = b'e' ∷ []; hook = 2; priority = pos 100 }

abbrev insert_sorted : HookEntry ℕ → List (HookEntry ℕ) → List (HookEntry ℕ)
insert_sorted h [] = h ∷ []
insert_sorted h (k ∷ ks) =
    let rest = insert_sorted h ks in if leb_ℤ h.priority k.priority then h ∷ k ∷ ks else k ∷ rest

abbrev sort : List (HookEntry ℕ) → List (HookEntry ℕ)
sort [] = []
sort (h ∷ hs) = insert_sorted h (sort hs)

abbrev manager : Manager ℕ
manager = record {
  timeout = pos 30;
  hook_timeout = pos 5;
  hooks = late_hook ∷ early_hook ∷ [];
  started = false;
  done = false;
}

-- Each group's hook ends without an error.
abbrev calm : ℕ → GroupRun
calm i = record { expired = false; events = finished (record { name = []; failed = false }) ∷ [] }

-- The context ends after the first group.
abbrev cut : ℕ → GroupRun
cut zero = calm 0
cut (suc i) = record { expired = true; events = [] }

sorts : Sorts sort manager.hooks
sorts = record { permutes = Perm.swap late_hook early_hook []; ascends = ground arith }

abbrev cut_outcome : Outcome ℕ
cut_outcome = record { ran = early_hook ∷ []; results = record { name = []; failed = false } ∷ [] }

cut_run :
    shutdown sort cut manager ≡ some (record manager { started = true; done = true }, cut_outcome)
unfolding shutdown perform_shutdown group_by_priority group_from run_groups execute_hook_group
    collect
cut_run = refl

shutdown-RanInOrder_example :
    RanInOrder manager.hooks cut_outcome
    × (is_shutdown (record manager { started = true; done = true }) ≡ true)
shutdown-RanInOrder_example =
    shutdown-RanInOrder sort cut manager (record manager { started = true; done = true })
      cut_outcome sorts refl cut_run

enough : Enough calm 0 (group_by_priority (sort manager.hooks))
unfolding group_by_priority group_from
enough = (omega arith, (omega arith, tt))

shutdown_runs_all_example :
    (m' : Manager ℕ) × (o : Outcome ℕ) × (shutdown sort calm manager ≡ some (m', o))
    × Perm o.ran manager.hooks
shutdown_runs_all_example = shutdown_runs_all sort calm manager sorts refl enough (λ j. refl)
