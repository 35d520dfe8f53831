-- ===== src/Scheduling/Admission/Caps.antt =====
-- src/scheduling/admission.ts: the caps of the scheduler hold of the work that is admitted.
use multi_agent_build_system.Prelude.{
  ℕ, ◌≤◌, ◌<◌, String, ◌≡◌, ◌≢◌, inl, inr, Bool, true, ◌&&◌, not, some, List, [], ◌∷◌, arith,
  str_eq, str_eq_iff, leb_iff, Option-cases, length, is_empty, filter, option_eq,
}
use multi_agent_build_system.Scheduling.Admission.{
  SchedulingLimits, ActiveWork, AdmissionRequest, is_model, is_gate, others_of, provider_limit,
  on_provider, provider_reasons, kind_reasons, evaluate_admission,
}
use multi_agent_build_system.Scheduling.Admission.Locks.{admitted_lem}

-- The work that a request becomes when it starts.
abbrev pub started : AdmissionRequest → ActiveWork
started r = record {
  task_id = r.task_id;
  project_id = r.project_id;
  repo_key = r.repo_key;
  kind = some r.kind;
  provider = r.provider;
  execution_mode = r.execution_mode;
  write_scope = r.write_scope;
  resources = r.resources;
}

-- The work that runs is within the caps on model workers, on check jobs and on the workers of each provider.
abbrev pub IsWithinCaps : SchedulingLimits → List ActiveWork → Type 0
IsWithinCaps l active =
    (length (filter is_model active) ≤ l.model_workers)
    × (length (filter is_gate active) ≤ l.gate_jobs)
    × ((p : String) (limit : ℕ)
        → p ≢ ""
        → provider_limit l.provider_limits p ≡ some limit
        → on_provider p active ≤ limit)

filter_le {ℓ} :
    {A : Type ℓ} (p q : A → Bool) (xs : List A)
    → length (filter p (filter q xs)) ≤ length (filter p xs)
filter_le p q [] = ground arith
filter_le p q (x ∷ xs) = ground (arith, filter_le p q xs)

others_caps :
    (r : AdmissionRequest) (active : List ActiveWork) (l : SchedulingLimits)
    → IsWithinCaps l active
    → IsWithinCaps l (others_of r active)
unfolding others_of
others_caps r active l (models, gates, providers) = (
  omega (arith, models, filter_le is_model (λ w. not (str_eq w.task_id r.task_id)) active),
  omega (arith, gates, filter_le is_gate (λ w. not (str_eq w.task_id r.task_id)) active),
  λ p limit named at. omega (
    arith,
    providers p limit named at,
    filter_le (λ w. is_model w && option_eq w.provider (some p))
        (λ w. not (str_eq w.task_id r.task_id)) active,
  ),
)

worker_caps :
    (r : AdmissionRequest) (others : List ActiveWork) (l : SchedulingLimits)
    → is_empty (kind_reasons r others l) ≡ true
    → length (filter is_model others) ≤ l.model_workers
    → length (filter is_gate others) ≤ l.gate_jobs
    → (length (filter is_model (started r ∷ others)) ≤ l.model_workers)
      × (length (filter is_gate (started r ∷ others)) ≤ l.gate_jobs)
unfolding kind_reasons
worker_caps r others l h models gates = ground arith

provider_free :
    (p : String) (others : List ActiveWork) (l : SchedulingLimits) (limit : ℕ)
    → is_empty (provider_reasons (some p) others l) ≡ true
    → provider_limit l.provider_limits p ≡ some limit
    → on_provider p others < limit
unfolding provider_reasons
provider_free p others l limit h at = ground (arith, leb_iff limit (on_provider p others))

provider_cap_of :
    (r : AdmissionRequest) (others : List ActiveWork) (l : SchedulingLimits) (p : String)
    (limit : ℕ)
    → is_empty (kind_reasons r others l) ≡ true
    → p ≢ ""
    → provider_limit l.provider_limits p ≡ some limit
    → on_provider p others ≤ limit
    → on_provider p (started r ∷ others) ≤ limit
unfolding kind_reasons
provider_cap_of r others l p limit h named at below = elim (Option-cases r.provider) [
  | inl nobody ↦ ground arith
  | inr (q, is) ↦ ground (arith, str_eq_iff q p, str_eq_iff q "", provider_free p others l limit)
]

-- Admission keeps the caps: if the running work is within them, so is the running work without the
-- task's own, with the admitted request started in its place.
pub admitted_caps :
    (r : AdmissionRequest) (active : List ActiveWork) (l : SchedulingLimits)
    → (evaluate_admission r active l).admitted ≡ true
    → IsWithinCaps l active
    → IsWithinCaps l (started r ∷ others_of r active)
admitted_caps r active l h (models, gates, providers) =
    let (kinds, slots, locks, held) = admitted_lem r active l h in
    let (models', gates', providers') = others_caps r active l (models, gates, providers) in
    let (m, g) = worker_caps r (others_of r active) l kinds models' gates' in
    (
      m,
      g,
      λ p limit named at.
          provider_cap_of r (others_of r active) l p limit kinds named at
            (providers' p limit named at),
    )
