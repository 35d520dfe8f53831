-- ===== src/Examples/Fairness.antt =====
-- The fair order of ready work at a concrete input.
use multi_agent_build_system.Prelude.{
  ℕ, String, ◌≡◌, refl, Bool, true, some, List, [], ◌∷◌, str_eq, if◌then◌else◌,
}
use multi_agent_build_system.Scheduling.Fairness.{FairnessCandidate, fair_order}
use multi_agent_build_system.Scheduling.Fairness.Complete.{count, fair_order-count}

abbrev waiting : String → String → ℕ → ℕ → FairnessCandidate
waiting task project priority since = record {
  task_id = task;
  project_id = project;
  priority = priority;
  ready_since = since;
}

abbrev ready_work : List FairnessCandidate
ready_work =
    waiting "a1" "a" 2 100
    ∷ waiting "a2" "a" 1 200
    ∷ waiting "b1" "b" 1 300
    ∷ waiting "a3" "a" 3 50
    ∷ []

abbrev served : String → ℕ
served project = if str_eq project "a" then 2 else 0

-- Project b has had no service, so it goes first; then the projects take turns.
ready_work_order :
    fair_order (λ a b. true) served 1000 600000 ready_work
    ≡ some (
        waiting "b1" "b" 1 300
        ∷ waiting "a2" "a" 1 200
        ∷ waiting "a1" "a" 2 100
        ∷ waiting "a3" "a" 3 50
        ∷ [])
unfolding fair_order
ready_work_order = refl

fair_order-count_example :
    (ordered : List FairnessCandidate) × (fair_order (λ a b. true) served 1000 600000 ready_work
      ≡ some ordered)
    × ((p : FairnessCandidate → Bool) → count p ordered ≡ count p ready_work)
fair_order-count_example = fair_order-count (λ a b. true) served 1000 600000 ready_work
