-- ===== src/Scheduling/Admission/Locks.antt =====
-- src/scheduling/admission.ts: what admitted work shares with the work that runs.
use multi_agent_build_system.Prelude.{
  ℕ, String, ◌≡◌, refl, ◌≢◌, inl, inr, Bool, true, false, none, List, [], ◌∷◌, ◌++◌, arith,
  str_eq_iff, Bool-cases, Option-cases, is_empty, find, All, All-map, includes,
}
use multi_agent_build_system.Scheduling.Scope.{scopes_overlap}
use multi_agent_build_system.Scheduling.Scope.Disjoint.{covers, overlap_complete}
use multi_agent_build_system.Scheduling.Admission.{
  SchedulingLimits, ActiveWork, AdmissionRequest, AdmissionReason, others_of, kind_reasons,
  slot_reasons, is_exclusive, work_reasons, lock_reasons, resource_reason, resource_reasons,
  all_reasons, evaluate_admission,
}

-- Two pieces of work that may run in one repository at a time.
abbrev pub IsApart : AdmissionRequest → ActiveWork → Type 0
IsApart r w =
    (w.repo_key ≡ r.repo_key)
    → (is_exclusive w.execution_mode ≡ false)
      × (is_exclusive r.execution_mode ≡ false)
      × (scopes_overlap r.write_scope w.write_scope ≡ false)

append_empty {ℓ} :
    {A : Type ℓ} (xs ys : List A)
    → is_empty (xs ++ ys) ≡ true
    → (is_empty xs ≡ true) × (is_empty ys ≡ true)
append_empty [] ys h = (refl, h)
append_empty (x ∷ xs) ys h = cc

work_reasons-empty :
    (r : AdmissionRequest) (w : ActiveWork) → is_empty (work_reasons r w) ≡ true → IsApart r w
unfolding work_reasons
work_reasons-empty r w h same = ground (arith, str_eq_iff w.repo_key r.repo_key)

lock_reasons-empty :
    (r : AdmissionRequest) (others : List ActiveWork)
    → is_empty (lock_reasons r others) ≡ true
    → All (IsApart r) others
unfolding lock_reasons
lock_reasons-empty r [] h = tt
lock_reasons-empty r (w ∷ others) h =
    let (here, rest) = append_empty (work_reasons r w) (lock_reasons r others) h in
    (work_reasons-empty r w here, lock_reasons-empty r others rest)

find-none {ℓ} :
    {A : Type ℓ} (p : A → Bool) (xs : List A) → find p xs ≡ none → All (λ x. p x ≡ false) xs
find-none p [] h = tt
find-none p (x ∷ xs) h = elim (Bool-cases (p x)) [
  | inl hit ↦ absurd (ground arith)
  | inr miss ↦ (miss, find-none p xs (ground arith))
]

-- No other work holds the resource.
abbrev pub IsFreeOf : List ActiveWork → String → Type 0
IsFreeOf others x = All (λ w. includes w.resources x ≡ false) others

resource_reasons-empty :
    (xs : List String) (others : List ActiveWork)
    → is_empty (resource_reasons xs others) ≡ true
    → All (IsFreeOf others) xs
unfolding resource_reasons resource_reason
resource_reasons-empty [] others h = tt
resource_reasons-empty (x ∷ xs) others h =
    elim (Option-cases (find (λ w. includes w.resources x) others)) [
      | inl free ↦ (
        find-none (λ w. includes w.resources x) others free,
        resource_reasons-empty xs others (ground arith),
      )
      | inr (w, held) ↦ absurd (ground arith)
    ]

-- No part of the checks of admitted work has given a reason.
pub admitted_lem :
    (r : AdmissionRequest) (active : List ActiveWork) (l : SchedulingLimits)
    → (evaluate_admission r active l).admitted ≡ true
    → (is_empty (kind_reasons r (others_of r active) l) ≡ true)
      × (is_empty (slot_reasons r active l) ≡ true)
      × (is_empty (lock_reasons r (others_of r active)) ≡ true)
      × (is_empty (resource_reasons r.resources (others_of r active)) ≡ true)
unfolding evaluate_admission all_reasons
admitted_lem r active l h =
    let locks : List AdmissionReason = lock_reasons r (others_of r active) in
    let held : List AdmissionReason = resource_reasons r.resources (others_of r active) in
    let slots : List AdmissionReason = slot_reasons r active l in
    let kinds : List AdmissionReason = kind_reasons r (others_of r active) l in
    let (front, e) = append_empty (kinds ++ slots ++ locks) held h in
    let (start, c) = append_empty (kinds ++ slots) locks front in
    let (a, b) = append_empty kinds slots start in (a, b, c, e)

admitted_locks :
    (r : AdmissionRequest) (active : List ActiveWork) (l : SchedulingLimits)
    → (evaluate_admission r active l).admitted ≡ true
    → All (IsApart r) (others_of r active) × All (IsFreeOf (others_of r active)) r.resources
admitted_locks r active l h =
    let (caps, slots, locks, held) = admitted_lem r active l h in
    (
      lock_reasons-empty r (others_of r active) locks,
      resource_reasons-empty r.resources (others_of r active) held,
    )

-- Admitted work is kept apart from all other work: no other work in its repository runs in an
-- exclusive mode, nor does it run in one itself beside other work there, no file lies in the write
-- scopes of both, and no other work holds a resource that it asks for.
pub admitted_apart :
    (r : AdmissionRequest) (active : List ActiveWork) (l : SchedulingLimits)
    → (evaluate_admission r active l).admitted ≡ true
    → All
        (λ w.
          (w.repo_key ≡ r.repo_key)
          → (is_exclusive w.execution_mode ≡ false)
            × (is_exclusive r.execution_mode ≡ false)
            × ((file : List ℕ)
                → covers r.write_scope file ≡ true
                → covers w.write_scope file ≢ true))
        (others_of r active)
      × All (IsFreeOf (others_of r active)) r.resources
admitted_apart r active l h =
    let (locks, free) = admitted_locks r active l h in
    (
      All-map
          (λ w apart same.
            let (theirs, ours, disjoint) = apart same in
            (
              theirs,
              ours,
              λ file p q.
                  ground (arith, overlap_complete r.write_scope w.write_scope file p q, disjoint),
            ))
          (others_of r active) locks,
      free,
    )
