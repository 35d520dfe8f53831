-- ===== src/Plan/Accepted.antt =====
-- src/domain/plan.ts: what `validateExecutionPlan` guarantees of a plan that it accepts.
use multi_agent_build_system.Prelude.{
  ℕ, suc, String, ◌≡◌, refl, ap, subst, inl, inr, true, false, some, List, [], ◌∷◌, ◌++◌, map,
  arith, Bool-cases, is_empty, filter, All, is_empty_parts, is_blank, includes,
}
use multi_agent_build_system.Plan.Draft.{
  PlannedTask, ExecutionPlan, PlanError, dependency_cycle, PlanValidation,
}
use multi_agent_build_system.Plan.Checks.{task_errors, plan_errors}
use multi_agent_build_system.Plan.Apart.{
  KnowsDeps, dependency_errors-KnowsDeps, AllPairs, AreApart, parallel_errors_ends,
}
use multi_agent_build_system.Plan.Graph.Topological.{IsTopological, walk-IsTopological}
use multi_agent_build_system.Plan.Graph.{Walk}
use multi_agent_build_system.Plan.Checked.{IsChecked, task_errors-IsChecked}
use multi_agent_build_system.Plan.Validate.{
  keys_of, label_of, index_tasks, deps_of, dependency_errors, is_parallel, conclude,
  validate_execution_plan,
}

-- No key occurs twice, or among those that were seen.
abbrev pub IsDistinct : List String → List String → Type 0
IsDistinct seen [] = Unit
IsDistinct seen (k ∷ ks) = (includes seen k ≡ false) × IsDistinct (k ∷ seen) ks

-- Where the loop over the tasks finds no error, each task is in `byKey`, in the order of the plan.
record Indexed (seen : List String) (ts by_key : List PlannedTask) : Type 0 where
  pub same : by_key ≡ ts
  pub distinct_keys : IsDistinct seen (keys_of ts)
  pub checked : All IsChecked ts

index_tasks-Indexed :
    (index : ℕ) (seen : List String) (ts : List PlannedTask)
    → is_empty (index_tasks index seen ts).0 ≡ true
    → Indexed seen ts (index_tasks index seen ts).1
unfolding index_tasks
index_tasks-Indexed index seen [] h = record { same = refl; distinct_keys = tt; checked = tt }
index_tasks-Indexed index seen (t ∷ ts) h = elim (Bool-cases (is_blank t.key)) [
  | inl blank ↦ absurd (ground arith)
  | inr keyed ↦ elim (Bool-cases (includes seen t.key)) [
    | inl twice ↦ absurd (ground arith)
    | inr fresh ↦
        let parts : is_empty (
              task_errors (label_of index t.key) t ++ (index_tasks (suc index) (t.key ∷ seen) ts).0)
            ≡ true =
          ground arith in
        let both = is_empty_parts _ _ parts in
        let rest = index_tasks-Indexed (suc index) (t.key ∷ seen) ts both.1 in
        record {
          same = rw (keyed, fresh) (ap (λ r. t ∷ r) rest.same);
          distinct_keys = (fresh, rest.distinct_keys);
          checked = (task_errors-IsChecked (label_of index t.key) t keyed both.0, rest.checked);
        }
  ]
]

-- What an accepted plan is.
pub record IsAccepted (plan : ExecutionPlan) (order : List String) : Type 0 where
  pub nonempty : is_empty plan.tasks ≡ false
  pub has_objective : is_blank plan.objective ≡ false
  pub has_reason : is_blank plan.reason ≡ false
  pub distinct_keys : IsDistinct [] (keys_of plan.tasks)
  pub checked : All IsChecked plan.tasks
  pub known : All (KnowsDeps (keys_of plan.tasks)) plan.tasks
  pub sorted : IsTopological (keys_of plan.tasks) (deps_of plan.tasks) order
  pub apart : AllPairs (AreApart plan.tasks) (filter (is_parallel plan) plan.tasks)

plan_checked :
    (plan : ExecutionPlan)
    → is_empty (plan_errors plan) ≡ true
    → (is_empty plan.tasks ≡ false)
      × (is_blank plan.objective ≡ false)
      × (is_blank plan.reason ≡ false)
unfolding plan_errors
plan_checked plan h = ground arith

nil_of_empty {ℓ} : {A : Type ℓ} (xs : List A) → is_empty xs ≡ true → xs ≡ []
nil_of_empty [] h = refl
nil_of_empty (x ∷ xs) h = cc

no_cycle : (cs : List (List String)) → is_empty (map dependency_cycle cs) ≡ true → cs ≡ []
no_cycle [] h = refl
no_cycle (c ∷ cs) h = cc

accepted :
    (plan : ExecutionPlan) (w : Walk) (overlaps : List PlanError)
    → (w.cycles ≡ []
        → IsTopological
            (keys_of (index_tasks 0 [] plan.tasks).1)
            (deps_of (index_tasks 0 [] plan.tasks).1)
            w.order)
    → (is_empty overlaps ≡ true
        → AllPairs
            (AreApart (index_tasks 0 [] plan.tasks).1)
            (filter (is_parallel plan) (index_tasks 0 [] plan.tasks).1))
    → is_empty (
        plan_errors plan
        ++ (index_tasks 0 [] plan.tasks).0
        ++ dependency_errors
            (keys_of (index_tasks 0 [] plan.tasks).1)
            (index_tasks 0 [] plan.tasks).1
        ++ map dependency_cycle w.cycles
        ++ overlaps)
      ≡ true
    → IsAccepted plan w.order
accepted plan w overlaps sorted apart h =
    let (before_overlaps, none_overlap) = is_empty_parts _ overlaps h in
    let (before_cycles, acyclic) =
      is_empty_parts _ (map dependency_cycle w.cycles) before_overlaps in
    let (before_deps, deps_fine) =
      is_empty_parts _
        (dependency_errors (keys_of (index_tasks 0 [] plan.tasks).1)
          (index_tasks 0 [] plan.tasks).1)
        before_cycles in
    let (own, tasks_fine) =
      is_empty_parts (plan_errors plan) (index_tasks 0 [] plan.tasks).0 before_deps in
    let (nonempty, objective, reason) = plan_checked plan own in
    let indexed = index_tasks-Indexed 0 [] plan.tasks tasks_fine in
    let same = indexed.same in
    record {
      nonempty = nonempty;
      has_objective = objective;
      has_reason = reason;
      distinct_keys = indexed.distinct_keys;
      checked = indexed.checked;
      known =
          subst (λ ts. All (KnowsDeps (keys_of ts)) ts) same
            (dependency_errors-KnowsDeps (keys_of (index_tasks 0 [] plan.tasks).1)
              (index_tasks 0 [] plan.tasks).1 deps_fine);
      sorted =
          subst (λ ts. IsTopological (keys_of ts) (deps_of ts) w.order) same
            (sorted (no_cycle w.cycles acyclic));
      apart =
          subst (λ ts. AllPairs (AreApart ts) (filter (is_parallel plan) ts)) same
            (apart none_overlap);
    }

-- The validation of a plan ends. Where it finds the plan valid, the plan has tasks, an objective and a
-- reason; no two tasks have the same key; each has its texts, a known mode and scopes that are paths
-- below the repository; each dependency is another task of the plan; the order that is returned has each
-- task once, after all that it depends on; and of any two tasks that may run in parallel one waits for
-- the other or no file lies in a scope of both.
pub validate_execution_plan-IsAccepted :
    (plan : ExecutionPlan)
    → (v : PlanValidation) × (validate_execution_plan plan ≡ some v)
      × (v.valid ≡ true → IsAccepted plan v.topological_order)
unfolding validate_execution_plan conclude
validate_execution_plan-IsAccepted plan =
    let by_key = (index_tasks 0 [] plan.tasks).1 in
    let (w, walked, real, sorted) = walk-IsTopological (keys_of by_key) (deps_of by_key) in
    let (overlaps, paired, apart) =
      parallel_errors_ends by_key (filter (is_parallel plan) by_key) in
    let errors =
      plan_errors plan
      ++ (index_tasks 0 [] plan.tasks).0
      ++ dependency_errors (keys_of by_key) by_key
      ++ map dependency_cycle w.cycles
      ++ overlaps in
    (
      conclude plan by_key w.order errors,
      ground (arith, walked, paired),
      λ valid. accepted plan w overlaps sorted apart valid,
    )
