-- ===== src/Scheduling/Admission.antt =====
-- src/scheduling/admission.ts: `evaluateAdmission`. A reason is the kind of its message with the values
-- put into it; a number that the source records under a name is a pair of the name and the number.
pub mod Caps
pub mod Locks
use multi_agent_build_system.Prelude.{
  ℕ, suc, String, str_append, Bool, true, false, ◌&&◌, ◌||◌, not, Option, none, some, List, [], ◌∷◌,
  ◌++◌, map, str_eq, leb, ◌==◌, if◌then◌else◌, or_default, length, is_empty, any, find, filter,
  when, option_eq, includes,
}
use multi_agent_build_system.Scheduling.Scope.{scopes_overlap}

pub data WorkKind : Type 0 where
  model gate : WorkKind

pub record SchedulingLimits : Type 0 where
  pub model_workers : ℕ
  pub provider_limits : List (String × ℕ)
  pub per_project_tasks : ℕ
  pub active_projects : ℕ
  pub gate_jobs : ℕ
  pub child_agents : ℕ

pub record ActiveWork : Type 0 where
  pub task_id : String
  pub project_id : String
  pub repo_key : String
  pub kind : Option WorkKind
  pub provider : Option String
  pub execution_mode : String
  pub write_scope : List (List ℕ)
  pub resources : List String

pub record AdmissionRequest : Type 0 where
  pub task_id : String
  pub project_id : String
  pub repo_key : String
  pub kind : WorkKind
  pub provider : Option String
  pub execution_mode : String
  pub write_scope : List (List ℕ)
  pub resources : List String

pub data AdmissionReason : Type 0 where
  model_worker_cap check_job_cap project_task_cap active_project_cap : ℕ → AdmissionReason
  provider_cap : String → ℕ → AdmissionReason
  repository_held : String → String → AdmissionReason
  write_scope_overlaps : String → AdmissionReason
  resource_held : String → String → AdmissionReason

pub record AdmissionExplanation : Type 0 where
  pub admitted : Bool
  pub reasons : List AdmissionReason
  pub limits : List (String × ℕ)
  pub observed : List (String × ℕ)

-- `[...new Set(xs)].length`
unfoldable pub distinct : List String → ℕ
distinct [] = 0
distinct (x ∷ xs) = let rest = distinct xs in if includes xs x then rest else suc rest

abbrev pub is_model : ActiveWork → Bool
is_model w = elim w.kind [ none ↦ false | some k ↦ elim k [ model ↦ true | gate ↦ false ] ]

abbrev pub is_gate : ActiveWork → Bool
is_gate w = elim w.kind [ none ↦ false | some k ↦ elim k [ model ↦ false | gate ↦ true ] ]

-- `active.filter((work) => work.taskId !== request.taskId)`
unfoldable pub others_of : AdmissionRequest → List ActiveWork → List ActiveWork
others_of r active = filter (λ w. not (str_eq w.task_id r.task_id)) active

unfoldable pub project_tasks : AdmissionRequest → List ActiveWork → ℕ
unfolding others_of distinct
project_tasks r active =
    distinct
      (map (λ w. w.task_id) (filter (λ w. str_eq w.project_id r.project_id) (others_of r active)))

unfoldable pub provider_limit : List (String × ℕ) → String → Option ℕ
provider_limit [] provider = none
provider_limit ((p, n) ∷ limits) provider =
    if str_eq p provider then some n else provider_limit limits provider

-- `if (request.provider)`: an empty name is no provider
abbrev pub named_provider : AdmissionRequest → Option String
named_provider r = elim r.provider [ none ↦ none | some p ↦ if str_eq p "" then none else some p ]

abbrev pub on_provider : String → List ActiveWork → ℕ
on_provider p others = length (filter (λ w. is_model w && option_eq w.provider (some p)) others)

abbrev pub over_limit : Option ℕ → ℕ → Bool
over_limit none n = false
over_limit (some limit) n = leb limit n

provider_reasons : Option String → List ActiveWork → SchedulingLimits → List AdmissionReason
unfolding provider_limit
provider_reasons none others l = []
provider_reasons (some p) others l =
    when (over_limit (provider_limit l.provider_limits p) (on_provider p others))
      (provider_cap p (or_default (provider_limit l.provider_limits p) 0))

-- The caps on workers and checks.
pub kind_reasons : AdmissionRequest → List ActiveWork → SchedulingLimits → List AdmissionReason
unfolding provider_reasons
kind_reasons r others l = elim r.kind [
  | model ↦
      when (leb l.model_workers (length (filter is_model others)))
        (model_worker_cap l.model_workers)
      ++ provider_reasons (named_provider r) others l
  | gate ↦ when (leb l.gate_jobs (length (filter is_gate others))) (check_job_cap l.gate_jobs)
]

abbrev pub holds_slot_in : AdmissionRequest → List ActiveWork → Bool
holds_slot_in r active = any (λ w. str_eq w.task_id r.task_id) active

-- The caps on tasks and projects, for a task that holds no slot.
pub slot_reasons : AdmissionRequest → List ActiveWork → SchedulingLimits → List AdmissionReason
unfolding others_of project_tasks distinct
slot_reasons r active l =
    let projects = map (λ w. w.project_id) (others_of r active) in
    if holds_slot_in r active
    then []
    else when (leb l.per_project_tasks (project_tasks r active))
        (project_task_cap l.per_project_tasks)
      ++ when (not (includes projects r.project_id) && leb l.active_projects (distinct projects))
          (active_project_cap l.active_projects)

abbrev pub is_exclusive : String → Bool
is_exclusive mode = str_eq mode "single" || str_eq mode "sequential"

abbrev pub held_as : String → String → String
held_as mode requested = if str_eq mode requested then mode else "exclusive"

-- The body of the loop over the other work.
unfoldable pub work_reasons : AdmissionRequest → ActiveWork → List AdmissionReason
unfolding scopes_overlap
work_reasons r w =
    if not (str_eq w.repo_key r.repo_key)
    then []
    else (if is_exclusive w.execution_mode || is_exclusive r.execution_mode
        then repository_held w.task_id (held_as w.execution_mode r.execution_mode) ∷ []
        else when (scopes_overlap r.write_scope w.write_scope) (write_scope_overlaps w.task_id))

pub lock_reasons : AdmissionRequest → List ActiveWork → List AdmissionReason
unfolding work_reasons
lock_reasons r [] = []
lock_reasons r (w ∷ others) = work_reasons r w ++ lock_reasons r others

resource_reason : String → Option ActiveWork → List AdmissionReason
resource_reason resource none = []
resource_reason resource (some w) = resource_held resource w.task_id ∷ []

pub resource_reasons : List String → List ActiveWork → List AdmissionReason
unfolding resource_reason
resource_reasons [] others = []
resource_reasons (x ∷ xs) others =
    resource_reason x (find (λ w. includes w.resources x) others) ++ resource_reasons xs others

-- Everything that the function pushes, in order.
all_reasons : AdmissionRequest → List ActiveWork → SchedulingLimits → List AdmissionReason
unfolding others_of kind_reasons slot_reasons lock_reasons resource_reasons
all_reasons r active l =
    kind_reasons r (others_of r active) l
    ++ slot_reasons r active l
    ++ lock_reasons r (others_of r active)
    ++ resource_reasons r.resources (others_of r active)

-- The kind of a message and the values in it, which tell messages apart.
reason_key : AdmissionReason → ℕ × ℕ × String × String
reason_key (model_worker_cap n) = (0, n, "", "")
reason_key (check_job_cap n) = (1, n, "", "")
reason_key (project_task_cap n) = (2, n, "", "")
reason_key (active_project_cap n) = (3, n, "", "")
reason_key (provider_cap p n) = (4, n, p, "")
reason_key (repository_held t m) = (5, 0, t, m)
reason_key (write_scope_overlaps t) = (6, 0, t, "")
reason_key (resource_held x t) = (7, 0, x, t)

reason_eq : AdmissionReason → AdmissionReason → Bool
unfolding reason_key
reason_eq a b =
    let (k, n, s, t) = reason_key a in
    let (k', n', s', t') = reason_key b in k == k' && n == n' && str_eq s s' && str_eq t t'

-- `[...new Set(reasons)]`
dedupe_reasons : List AdmissionReason → List AdmissionReason
unfolding reason_eq
dedupe_reasons [] = []
dedupe_reasons (x ∷ xs) = x ∷ filter (λ y. not (reason_eq y x)) (dedupe_reasons xs)

observed_provider : AdmissionRequest → List ActiveWork → List (String × ℕ)
observed_provider r others = elim r.kind [
  | gate ↦ []
  | model ↦ elim (named_provider r) [
    | none ↦ []
    | some p ↦ (str_append "provider:" p, on_provider p others) ∷ []
  ]
]

unfoldable pub evaluate_admission :
    AdmissionRequest → List ActiveWork → SchedulingLimits → AdmissionExplanation
unfolding others_of project_tasks distinct all_reasons dedupe_reasons observed_provider
evaluate_admission r active l =
    let others = others_of r active in
    record {
      admitted = is_empty (all_reasons r active l);
      reasons = dedupe_reasons (all_reasons r active l);
      limits =
          ("modelWorkers", l.model_workers)
          ∷ ("gateJobs", l.gate_jobs)
          ∷ ("perProjectTasks", l.per_project_tasks)
          ∷ ("activeProjects", l.active_projects)
          ∷ ("childAgents", l.child_agents)
          ∷ [];
      observed =
          ("modelWorkers", length (filter is_model others))
          ∷ ("gateJobs", length (filter is_gate others))
          ∷ ("projectTasks", project_tasks r active)
          ∷ ("activeProjects", distinct (map (λ w. w.project_id) others))
          ∷ observed_provider r others;
    }
