-- ===== src/Shutdown/Ordering.antt =====
-- Which hooks a shutdown runs, and in which order.
use mathlib.Core.List.{Perm, append_assoc}
use ais_pkg.Prelude.{
  ℕ, zero, suc, ◌+◌, ◌≤◌, true, false, ◌≡◌, refl, sym, ap, ◌∙◌, arith, inl, inr, List, [], ◌∷◌,
  ◌++◌, some, length, All, All-append, Bool-cases, Option-cases,
}
use ais_pkg.Prelude.Int.{ℤ, ◌<ℤ◌}
use ais_pkg.Shutdown.Hooks.{HookEntry, HookGroup, group_by_priority}
use ais_pkg.Shutdown.Manager.{
  Manager, HookResult, Event, finished, ctx_done, GroupRun, ◌>>=◌, collect, execute_hook_group,
  Outcome, run_groups, perform_shutdown, shutdown, is_shutdown,
}
use ais_pkg.Shutdown.Grouping.{members, Ascending, IsUniform, Rising, group_by_priority_runs}

-- Enough events arrive for the collection to end: one for each hook.
collect_total :
    (n : ℕ) (events : List Event) (results : List HookResult)
    → n ≤ length events
    → (r : List HookResult) × (collect n events results ≡ some r)
unfolding collect
collect_total zero events results h = (results, refl)
collect_total (suc n) [] results h = absurd (omega arith)
collect_total (suc n) (finished r ∷ events) results h = collect_total n events _ (omega arith)
collect_total (suc n) (ctx_done ∷ events) results h = (results, refl)

module _ {H : Type 0} where
  -- While the hooks of a group run, at least one event for each of them arrives.
  abbrev pub Enough : (ℕ → GroupRun) → ℕ → List (HookGroup H) → Type 0
  Enough env i [] = Unit {0}
  Enough env i (g ∷ gs) = (length g.hooks ≤ length (env i).events) × Enough env (i + 1) gs

  -- What the run of some groups has done: it has run the first ones whole.
  record RunsFirst (gs : List (HookGroup H)) (o : Outcome H) : Type 0 where
    ahead : List (HookGroup H)
    left : List (HookGroup H)
    split : ahead ++ left ≡ gs
    ran : o.ran ≡ members ahead

  go_on-eq-some :
      (env : ℕ → GroupRun) (i : ℕ) (g : HookGroup H) (gs : List (HookGroup H)) (o : Outcome H)
      → (execute_hook_group g.hooks (env i).events >>= λ results.
          run_groups env (i + 1) gs >>= λ rest.
          some (record { ran = g.hooks ++ rest.ran; results = results ++ rest.results }))
        ≡ some o
      → (r : List HookResult) × (rest : Outcome H) × (execute_hook_group g.hooks (env i).events
          ≡ some r)
        × (run_groups env (i + 1) gs ≡ some rest)
        × (o.ran ≡ g.hooks ++ rest.ran)
  go_on-eq-some env i g gs o h = elim (Option-cases (execute_hook_group g.hooks (env i).events)) [
    | inl e ↦ absurd (ground (arith, e))
    | inr (r, e) ↦ elim (Option-cases (run_groups env (i + 1) gs)) [
      | inl k ↦ absurd (ground (arith, e, k))
      | inr (rest, k) ↦ (r, rest, e, k, ground (arith, e, k))
    ]
  ]

  run_groups-RunsFirst :
      (env : ℕ → GroupRun) (i : ℕ) (gs : List (HookGroup H)) (o : Outcome H)
      → run_groups env i gs ≡ some o
      → RunsFirst gs o
  unfolding run_groups members
  run_groups-RunsFirst env i [] o h = record {
    ahead = [];
    left = [];
    split = refl;
    ran = ground arith;
  }
  run_groups-RunsFirst env i (g ∷ gs) o h = elim (Bool-cases (env i).expired) [
    | inl e ↦ record { ahead = []; left = g ∷ gs; split = refl; ran = ground arith }
    | inr e ↦
        let (r, rest, p, q, shape) = go_on-eq-some env i g gs o (rw e at h) in
        let ih = run_groups-RunsFirst env (i + 1) gs rest q in
        record {
          ahead = g ∷ ih.ahead;
          left = ih.left;
          split = ap (λ l. g ∷ l) ih.split;
          ran = shape ∙ ap (λ l. g.hooks ++ l) ih.ran;
        }
  ]

  run_groups_total :
      (env : ℕ → GroupRun) (i : ℕ) (gs : List (HookGroup H))
      → Enough env i gs
      → ((j : ℕ) → (env j).expired ≡ false)
      → (o : Outcome H) × (run_groups env i gs ≡ some o) × (o.ran ≡ members gs)
  unfolding run_groups execute_hook_group members
  run_groups_total env i [] enough live = (record { ran = []; results = [] }, refl, refl)
  run_groups_total env i (g ∷ gs) enough live =
      let (r, e) = collect_total (length g.hooks) (env i).events [] enough.0 in
      let (o, p, q) = run_groups_total env (i + 1) gs enough.1 live in
      (
        record { ran = g.hooks ++ o.ran; results = r ++ o.results },
        rw (live i, e, p),
        ap (λ l. g.hooks ++ l) q,
      )

  members-append : (ds rs : List (HookGroup H)) → members (ds ++ rs) ≡ members ds ++ members rs
  unfolding members
  members-append [] rs = refl
  members-append (d ∷ ds) rs =
      ap (λ l. d.hooks ++ l) (members-append ds rs)
      ∙ sym (append_assoc d.hooks (members ds) (members rs))

  -- Every hook of `left` has a greater priority number than `h`.
  abbrev pub Before : HookEntry H → List (HookEntry H) → Type 0
  Before h = All (λ k. h.priority <ℤ k.priority)

  Before-group :
      (p : ℤ) (h : HookEntry H) (g : HookGroup H) (ks : List (HookEntry H))
      → h.priority ≡ p
      → p <ℤ g.priority
      → All (λ k. k.priority ≡ g.priority) ks
      → Before h ks
  Before-group p h g [] e lt same = tt
  Before-group p h g (k ∷ ks) e lt same = (rw (e, same.0) lt, Before-group p h g ks e lt same.1)

  Before-members :
      (p : ℤ) (h : HookEntry H) (rs : List (HookGroup H))
      → h.priority ≡ p
      → All (λ g. p <ℤ g.priority) rs
      → All IsUniform rs
      → Before h (members rs)
  unfolding members
  Before-members p h [] e lt uniform = tt
  Before-members p h (g ∷ rs) e lt uniform =
      All-append (λ k. h.priority <ℤ k.priority) g.hooks (members rs)
        (Before-group p h g g.hooks e lt.0 uniform.0.same) (Before-members p h rs e lt.1 uniform.1)

  All-right : (P : HookGroup H → Type 0) (ds rs : List (HookGroup H)) → All P (ds ++ rs) → All P rs
  All-right P [] rs h = h
  All-right P (d ∷ ds) rs h = All-right P ds rs h.1

  Before-each :
      (p : ℤ) (ks : List (HookEntry H)) (rs : List (HookGroup H))
      → All (λ k. k.priority ≡ p) ks
      → All (λ g. p <ℤ g.priority) rs
      → All IsUniform rs
      → All (λ k. Before k (members rs)) ks
  Before-each p [] rs same lt uniform = tt
  Before-each p (k ∷ ks) rs same lt uniform =
      (Before-members p k rs same.0 lt uniform, Before-each p ks rs same.1 lt uniform)

  members-Before :
      (ds rs : List (HookGroup H))
      → Rising (ds ++ rs)
      → All IsUniform (ds ++ rs)
      → All (λ h. Before h (members rs)) (members ds)
  unfolding members
  members-Before [] rs rising uniform = tt
  members-Before (d ∷ ds) rs rising uniform =
      All-append (λ h. Before h (members rs)) d.hooks (members ds)
        (Before-each d.priority d.hooks rs uniform.0.same
          (All-right (λ g. d.priority <ℤ g.priority) ds rs rising.0)
          (All-right IsUniform ds rs uniform.1))
        (members-Before ds rs rising.1 uniform.1)

  -- A run of the shutdown hooks: those that ran and those that were skipped are together the
  -- registered ones in ascending order of priority, and each one that ran has a smaller number
  -- than each one that was skipped.
  pub record RanInOrder (hooks : List (HookEntry H)) (o : Outcome H) : Type 0 where
    pub skipped : List (HookEntry H)
    pub same_hooks : Perm (o.ran ++ skipped) hooks
    pub ordered : Ascending (o.ran ++ skipped)
    pub whole_priorities : All (λ h. Before h skipped) o.ran

  -- What sort.Slice promises of the list `hs`: a permutation in ascending order.
  pub record Sorts (sort : List (HookEntry H) → List (HookEntry H)) (hs : List (HookEntry H))
      : Type 0 where
    pub permutes : Perm (sort hs) hs
    pub ascends : Ascending (sort hs)

  RunsFirst-RanInOrder :
      (sorted hooks : List (HookEntry H)) (o : Outcome H)
      → Perm sorted hooks
      → Ascending sorted
      → RunsFirst (group_by_priority sorted) o
      → RanInOrder hooks o
  RunsFirst-RanInOrder sorted hooks o perm asc first =
      let (all_there, uniform, rising) = group_by_priority_runs sorted asc in
      let together : o.ran ++ members first.left ≡ sorted =
        ap (λ l. l ++ members first.left) first.ran
        ∙ sym (members-append first.ahead first.left)
        ∙ ap members first.split
        ∙ all_there in
      record {
        skipped = members first.left;
        same_hooks = rw together perm;
        ordered = rw together asc;
        whole_priorities = rw first.ran (
            members-Before first.ahead first.left (rw first.split rising) (rw first.split uniform));
      }

  -- The first Shutdown, if it ends, has run hooks in ascending order of priority, and whenever the
  -- context ends, the hooks that it leaves out are those of greater numbers than all that ran: no
  -- priority is cut in two. Afterwards the manager reports that it has shut down.
  pub shutdown-RanInOrder :
      (sort : List (HookEntry H) → List (HookEntry H)) (env : ℕ → GroupRun) (m m' : Manager H)
      (o : Outcome H)
      → Sorts sort m.hooks
      → m.started ≡ false
      → shutdown sort env m ≡ some (m', o)
      → RanInOrder m.hooks o × (is_shutdown m' ≡ true)
  unfolding shutdown perform_shutdown is_shutdown
  shutdown-RanInOrder sort env m m' o sorts fresh h =
      elim (Option-cases (run_groups env 0 (group_by_priority (sort m.hooks)))) [
        | inl e ↦ absurd (ground (arith, e))
        | inr (o', e) ↦
            let same : o' ≡ o = ground (arith, e) in
            (
              RunsFirst-RanInOrder (sort m.hooks) m.hooks o sorts.permutes sorts.ascends (
                  run_groups-RunsFirst env 0 (group_by_priority (sort m.hooks)) o
                    (e ∙ ap some same)),
              ground (arith, e),
            )
      ]

  -- If the shutdown context does not end and every group gets an event for each of its hooks, the
  -- first Shutdown ends and has run all the hooks that were registered, each once.
  pub shutdown_runs_all :
      (sort : List (HookEntry H) → List (HookEntry H)) (env : ℕ → GroupRun) (m : Manager H)
      → Sorts sort m.hooks
      → m.started ≡ false
      → Enough env 0 (group_by_priority (sort m.hooks))
      → ((j : ℕ) → (env j).expired ≡ false)
      → (m' : Manager H) × (o : Outcome H) × (shutdown sort env m ≡ some (m', o))
        × Perm o.ran m.hooks
  unfolding shutdown perform_shutdown
  shutdown_runs_all sort env m sorts fresh enough live =
      let (o, e, ran) = run_groups_total env 0 (group_by_priority (sort m.hooks)) enough live in
      let (all_there, _, _) = group_by_priority_runs (sort m.hooks) sorts.ascends in
      (
        record m { started = true; done = true },
        o,
        rw (fresh, e),
        rw (ran ∙ all_there) sorts.permutes,
      )

  -- A Shutdown after one that has ended runs no hook and changes nothing.
  pub shutdown_once :
      (sort sort' : List (HookEntry H) → List (HookEntry H)) (env env' : ℕ → GroupRun)
      (m m' : Manager H) (o : Outcome H)
      → shutdown sort env m ≡ some (m', o)
      → shutdown sort' env' m' ≡ some (m', record { ran = []; results = [] })
  unfolding shutdown
  shutdown_once sort sort' env env' m m' o h = elim (Option-cases (perform_shutdown sort env m)) [
    | inl e ↦ ground (arith, e)
    | inr (o', e) ↦ ground (arith, e)
  ]
