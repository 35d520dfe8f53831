-- ===== src/Plan/Checked.antt =====
-- src/domain/plan.ts: what the checks of one task guarantee.
use multi_agent_build_system.Prelude.{
  String, ◌≡◌, refl, inl, inr, true, false, Option, none, some, List, [], arith, Bool-cases,
  or_default, is_empty, any, is_empty-filter, is_empty-append, codes, is_blank, includes,
}
use multi_agent_build_system.Plan.Draft.{PlannedTask, TaskLabel}
use multi_agent_build_system.Plan.Checks.{
  execution_modes, escapes_repository, has_glob, scope_errors, text_errors, task_errors,
}
use multi_agent_build_system.Scheduling.Scope.{normalize_scope}

-- A task whose scopes are paths below the repository, not globs, and that says what it is for, how it runs
-- and why.
pub record IsChecked (t : PlannedTask) : Type 0 where
  pub has_key : is_blank t.key ≡ false
  pub has_title : is_blank t.title ≡ false
  pub has_objective : is_blank t.objective ≡ false
  pub has_criteria : is_empty t.acceptance_criteria ≡ false
  pub mode_known : includes execution_modes t.execution_mode ≡ true
  pub has_reason : is_blank t.execution_reason ≡ false
  pub inside : any (λ s. escapes_repository (codes s)) (or_default t.allowed_scope []) ≡ false
  pub plain :
      any (λ s. has_glob (normalize_scope (codes s))) (or_default t.allowed_scope []) ≡ false

scope_checked :
    (label : TaskLabel) (scopes : Option (List String))
    → is_empty (scope_errors label scopes) ≡ true
    → (any (λ s. escapes_repository (codes s)) (or_default scopes []) ≡ false)
      × (any (λ s. has_glob (normalize_scope (codes s))) (or_default scopes []) ≡ false)
unfolding scope_errors
scope_checked label none h = (refl, refl)
scope_checked label (some scopes) h =
    elim (Bool-cases (any (λ s. escapes_repository (codes s)) scopes)) [
      | inl out ↦ absurd (ground arith)
      | inr inside ↦ (
        inside,
        ground (arith, is_empty-filter (λ s. has_glob (normalize_scope (codes s))) scopes),
      )
    ]

text_checked :
    (label : TaskLabel) (t : PlannedTask)
    → is_empty (text_errors label t) ≡ true
    → (is_blank t.title ≡ false)
      × (is_blank t.objective ≡ false)
      × (is_empty t.acceptance_criteria ≡ false)
      × (includes execution_modes t.execution_mode ≡ true)
      × (is_blank t.execution_reason ≡ false)
unfolding text_errors
text_checked label t h = ground arith

pub task_errors-IsChecked :
    (label : TaskLabel) (t : PlannedTask)
    → is_blank t.key ≡ false
    → is_empty (task_errors label t) ≡ true
    → IsChecked t
unfolding task_errors
task_errors-IsChecked label t keyed h =
    let parts = simp is_empty-append at h in
    let (title, objective, criteria, mode, reason) = text_checked label t (ground arith) in
    let (inside, plain) = scope_checked label t.allowed_scope (ground arith) in
    record {
      has_key = keyed;
      has_title = title;
      has_objective = objective;
      has_criteria = criteria;
      mode_known = mode;
      has_reason = reason;
      inside = inside;
      plain = plain;
    }
