-- ===== src/Examples/Scheduling.antt =====
-- The scheduler and the controller's lease at concrete inputs.
use multi_agent_build_system.Prelude.{
  ℕ, ◌≤◌, String, ◌≡◌, refl, ◌≢◌, ◌↔◌, true, false, none, some, List, [], ◌∷◌, ◌++◌, arith, str_eq,
  str_eq_iff, ◌==◌, All,
}
use multi_agent_build_system.Scheduling.Scope.Disjoint.{covers}
use multi_agent_build_system.Scheduling.Admission.{
  model, SchedulingLimits, ActiveWork, AdmissionRequest, others_of, provider_limit, is_exclusive,
  evaluate_admission,
}
use multi_agent_build_system.Scheduling.Admission.Locks.{IsFreeOf, admitted_apart}
use multi_agent_build_system.Scheduling.Admission.Caps.{started, IsWithinCaps, admitted_caps}
use multi_agent_build_system.Scheduling.Concurrency.{new_concurrency, observe_all, target_bounds}
use multi_agent_build_system.Routing.{
  verified_entitlement, enforced, CapabilityRegistry, CapabilityRequest, evaluate_capability,
}
use multi_agent_build_system.Routing.Eligible.{IsPermitted, eligible_iff}
use multi_agent_build_system.Controller.{
  ControllerLease, acquire_controller_lease, crashed, process_alive, controller_liveness,
}
use multi_agent_build_system.Controller.Exclusive.{
  Holds, Attempted, attempts, IsWithin, lease_exclusive,
}
use multi_agent_build_system.Controller.Contention.{contends_iff}

-- `src/a` and `src/b`
abbrev source_a : List ℕ
source_a = 115 ∷ 114 ∷ 99 ∷ 47 ∷ 97 ∷ []

abbrev source_b : List ℕ
source_b = 115 ∷ 114 ∷ 99 ∷ 47 ∷ 98 ∷ []

abbrev below_a : List ℕ
below_a = source_a ++ 47 ∷ 120 ∷ []

abbrev running_work : ActiveWork
running_work = record {
  task_id = "task-1";
  project_id = "project-1";
  repo_key = "/repo";
  kind = some model;
  provider = some "p";
  execution_mode = "parallel";
  write_scope = source_a ∷ [];
  resources = [];
}

abbrev new_request : AdmissionRequest
new_request = record {
  task_id = "task-2";
  project_id = "project-1";
  repo_key = "/repo";
  kind = model;
  provider = some "p";
  execution_mode = "parallel";
  write_scope = source_b ∷ [];
  resources = "port:8080" ∷ [];
}

abbrev scheduling_limits : SchedulingLimits
scheduling_limits = record {
  model_workers = 2;
  provider_limits = ("p", 2) ∷ [];
  per_project_tasks = 2;
  active_projects = 1;
  gate_jobs = 1;
  child_agents = 0;
}

admits : (evaluate_admission new_request (running_work ∷ []) scheduling_limits).admitted ≡ true
unfolding evaluate_admission
admits = refl

admitted_apart_example :
    All
      (λ w.
        (w.repo_key ≡ "/repo")
        → (is_exclusive w.execution_mode ≡ false)
          × (is_exclusive "parallel" ≡ false)
          × ((file : List ℕ)
              → covers (source_b ∷ []) file ≡ true
              → covers w.write_scope file ≢ true))
      (others_of new_request (running_work ∷ []))
    × All (IsFreeOf (others_of new_request (running_work ∷ []))) ("port:8080" ∷ [])
admitted_apart_example = admitted_apart new_request (running_work ∷ []) scheduling_limits admits

within_caps : IsWithinCaps scheduling_limits (running_work ∷ [])
unfolding provider_limit
within_caps = (omega arith, omega arith, λ p limit named at. ground (arith, str_eq_iff "p" p))

admitted_caps_example :
    IsWithinCaps scheduling_limits (started new_request ∷ others_of new_request (running_work ∷ []))
admitted_caps_example =
    admitted_caps new_request (running_work ∷ []) scheduling_limits admits within_caps

target_bounds_example :
    (1 ≤ (observe_all (true ∷ false ∷ true ∷ true ∷ []) (new_concurrency 3 none (some 1))).current)
    × (1
        ≤ (observe_all (true ∷ false ∷ true ∷ true ∷ []) (new_concurrency 3 none (some 1))).current)
    × ((observe_all (true ∷ false ∷ true ∷ true ∷ []) (new_concurrency 3 none (some 1))).current
        ≤ 3)
target_bounds_example =
    target_bounds (true ∷ false ∷ true ∷ true ∷ []) 3 none (some 1) (omega arith)

abbrev held_lease : ControllerLease
held_lease = record { controller_id = "a"; pid = 12; acquired_at = 50; heartbeat_at = some 100 }

abbrev asked : List Attempted
asked =
    record { controller = "b"; pid = 13; at = 105 }
    ∷ record { controller = "a"; pid = 12; at = 110 }
    ∷ record { controller = "c"; pid = 14; at = 120 }
    ∷ []

different_names : (a b : String) → str_eq a b ≡ false → a ≢ b
different_names a b h e = ground (arith, str_eq_iff a b)

held_lease-Holds : Holds "a" 100 (some held_lease)
held_lease-Holds = (held_lease, refl, refl, 100, refl, omega arith)

asked-IsWithin : All (IsWithin 100 30) asked
asked-IsWithin =
    ((omega arith, omega arith), ((omega arith, omega arith), ((omega arith, omega arith), tt)))

lease_exclusive_example :
    Holds "a" 100 (attempts 30 asked (some held_lease))
    × ((c : Attempted)
        → c.controller ≢ "a"
        → IsWithin 100 30 c
        → (acquire_controller_lease c.controller c.pid 30 c.at
            (attempts 30 asked (some held_lease))).1
          ≡ false)
lease_exclusive_example =
    lease_exclusive asked "a" 30 100 (some held_lease) held_lease-Holds asked-IsWithin

takes_over : (acquire_controller_lease "b" 13 30 200 (some held_lease)).1 ≡ true
unfolding acquire_controller_lease
takes_over = refl

contends_iff_example :
    (((controller_liveness (λ p. p == 7) 110 30 (some held_lease)).start_would_contend ≡ true) ↔ (
      (process_alive (λ p. p == 7) 12 ≡ true)
      × ((acquire_controller_lease "b" 13 30 110 (some held_lease)).1 ≡ false)))
    × (((acquire_controller_lease "b" 13 30 110 (some held_lease)).1 ≡ false)
        → (process_alive (λ p. p == 7) 12 ≡ false)
        → ((controller_liveness (λ p. p == 7) 110 30 (some held_lease)).state ≡ crashed)
          × ((controller_liveness (λ p. p == 7) 110 30 (some held_lease)).start_would_contend
              ≡ false))
contends_iff_example =
    contends_iff (λ p. p == 7) "b" 13 30 110 held_lease (different_names "a" "b" refl)

abbrev small_registry : CapabilityRegistry
small_registry = record {
  version = "v";
  entries =
      record {
        provider = "p";
        model = "m";
        efforts = "low" ∷ [];
        auth_modes = "subscription" ∷ [];
        quota_domain = "q";
        entitlement = verified_entitlement;
        delegation_control = enforced;
        delegation_observable = true;
        evidence = "";
      }
      ∷ [];
}

abbrev launch_request : CapabilityRequest
launch_request = record {
  provider = "p";
  model = some "m";
  effort = some "low";
  auth_mode = some "subscription";
  delegation = none;
}

eligible_iff_example :
    ((evaluate_capability small_registry launch_request 5).1.eligible ≡ true)
    ↔ IsPermitted small_registry launch_request
eligible_iff_example = eligible_iff small_registry launch_request 5
