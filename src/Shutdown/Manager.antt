-- ===== src/Shutdown/Manager.antt =====
-- shutdown/shutdown.go: the manager's state, registration, and the run of a shutdown. What the
-- hooks do and when the contexts end is given by the environment.
use ais_pkg.Prelude.{
  ℕ, zero, suc, ◌+◌, Bool, true, false, List, [], ◌∷◌, ◌++◌, Option, some, none, length,
  if◌then◌else◌,
}
use ais_pkg.Prelude.Text.{Text}
use ais_pkg.Prelude.Int.{ℤ}
use ais_pkg.Shutdown.Hooks.{HookEntry, HookGroup, group_by_priority, priority_normal}

-- Manager: `started` is the state of the sync.Once, `done` whether the channel is closed.
pub record Manager (H : Type 0) : Type 0 where
  pub timeout : ℤ
  pub hook_timeout : ℤ
  pub hooks : List (HookEntry H)
  pub started : Bool
  pub done : Bool

-- hookResult, without the duration
pub record HookResult : Type 0 where
  pub name : Text
  pub failed : Bool

-- What the select of executeHookGroup receives.
pub data Event : Type 0 where
  finished : HookResult → Event
  ctx_done : Event

-- What happens around one group: whether the shutdown context has ended before it, and the events
-- that arrive while its hooks run.
pub record GroupRun : Type 0 where
  pub expired : Bool
  pub events : List Event

-- `m >>= f` for a run that may block for ever, which is `none`
infixl 5 ◌>>=◌
abbrev pub ◌>>=◌ : {A B : Type 0} → Option A → (A → Option B) → Option B
none >>= f = none
some a >>= f = f a

-- The loop of executeHookGroup that collects results: `n` are missing. `none` means that it waits
-- for an event that never comes.
unfoldable pub collect : ℕ → List Event → List HookResult → Option (List HookResult)
collect zero events results = some results
collect (suc n) [] results = none
collect (suc n) (finished r ∷ events) results = collect n events (results ++ r ∷ [])
collect (suc n) (ctx_done ∷ events) results = some results

-- The hooks that were started, in this order of groups, and the results.
pub record Outcome (H : Type 0) : Type 0 where
  pub ran : List (HookEntry H)
  pub results : List HookResult

module _ {H : Type 0} where
  -- NewManager
  unfoldable pub new_manager : ℤ → ℤ → Manager H
  new_manager timeout hook_timeout = record {
    timeout = timeout;
    hook_timeout = hook_timeout;
    hooks = [];
    started = false;
    done = false;
  }

  -- RegisterHookWithPriority
  unfoldable pub register_hook_with_priority : Manager H → Text → H → ℤ → Manager H
  register_hook_with_priority m name hook priority = record m {
    hooks = m.hooks ++ record { name = name; hook = hook; priority = priority } ∷ [];
  }

  -- RegisterHook
  unfoldable pub register_hook : Manager H → Text → H → Manager H
  unfolding register_hook_with_priority
  register_hook m name hook = register_hook_with_priority m name hook priority_normal

  -- executeHookGroup: every hook of the group is started; these are the results collected.
  unfoldable pub execute_hook_group : List (HookEntry H) → List Event → Option (List HookResult)
  unfolding collect
  execute_hook_group hooks events = collect (length hooks) events []

  -- The loop of performShutdown over the groups, from the group with number `i`.
  unfoldable pub run_groups : (ℕ → GroupRun) → ℕ → List (HookGroup H) → Option (Outcome H)
  unfolding execute_hook_group
  run_groups env i [] = some (record { ran = []; results = [] })
  run_groups env i (g ∷ gs) =
      let go_on = execute_hook_group g.hooks (env i).events >>= λ results.
      run_groups env (i + 1) gs >>= λ rest.
      some (record { ran = g.hooks ++ rest.ran; results = results ++ rest.results }) in
      if (env i).expired then some (record { ran = []; results = [] }) else go_on

  -- performShutdown; `sort` stands for sort.Slice by priority, which is not stable.
  unfoldable pub perform_shutdown :
      (List (HookEntry H) → List (HookEntry H)) → (ℕ → GroupRun) → Manager H → Option (Outcome H)
  perform_shutdown sort env m = run_groups env 0 (group_by_priority (sort m.hooks))

  -- Shutdown: under the Once the hooks run, and then the channel is closed.
  unfoldable pub shutdown :
      (List (HookEntry H) → List (HookEntry H))
      → (ℕ → GroupRun)
      → Manager H
      → Option (Manager H × Outcome H)
  shutdown sort env m =
      if m.started
      then some (m, record { ran = []; results = [] })
      else perform_shutdown sort env m >>= λ outcome.
          some (record m { started = true; done = true }, outcome)

  -- IsShutdown
  unfoldable pub is_shutdown : Manager H → Bool
  is_shutdown m = m.done

-- The number of hooks that succeeded, as reportResults counts them.
unfoldable pub success_count : List HookResult → ℕ
success_count [] = 0
success_count (r ∷ rs) = if r.failed then success_count rs else suc (success_count rs)
