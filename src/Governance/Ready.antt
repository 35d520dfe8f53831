-- ===== src/Governance/Ready.antt =====
-- src/domain/project-policy.ts: when a project is ready.
use multi_agent_build_system.Prelude.{
  ◌≤◌, String, ◌≡◌, refl, sym, subst, ◌≢◌, ◌↔◌, inl, inr, true, Option, none, some, arith,
  str_eq_iff, Option-cases, is_empty,
}
use multi_agent_build_system.Governance.{
  ProjectType, client, ReviewChoice, required, policy_version, choice_eq_iff, confirmed,
  ProjectGovernance, independent_provider, blocked, GovernedReviewPolicy, missing_answers,
  missing_confirmation, trigger_is, policy_conflicts, own_conflicts, evaluate_project_readiness,
}

-- The review policy that is in force carries out the recorded choice.
pub record Honours (t : ProjectType) (c : ReviewChoice) (p : GovernedReviewPolicy) : Type 0 where
  pub triggers : trigger_is c p.trigger ≡ true
  pub reviews_all : c ≡ required → is_empty p.skip_task_classes ≡ true
  pub independent : t ≡ client → p.reviewer_route ≡ independent_provider
  pub blocks : t ≡ client → p.capacity_action ≡ blocked

-- What readiness promises.
pub record IsGoverned (g : ProjectGovernance) (p : Option GovernedReviewPolicy) : Type 0 where
  pub kind : ProjectType
  pub choice : ReviewChoice
  pub has_kind : g.project_type ≡ some kind
  pub has_choice : g.review_choice ≡ some choice
  pub client_reviewed : kind ≡ client → choice ≢ ReviewChoice.off
  pub decided : g.decision_state ≡ confirmed
  pub decision : (id : String) × (g.decision_id ≡ some id)
  pub versioned : 1 ≤ g.version
  pub supported : g.policy_version ≡ policy_version
  pub honoured : (q : GovernedReviewPolicy) → p ≡ some q → Honours kind choice q

ready-Honours :
    (g : ProjectGovernance) (q : GovernedReviewPolicy) (t : ProjectType) (c : ReviewChoice)
    → g.project_type ≡ some t
    → is_empty (policy_conflicts g (some q) (some c)) ≡ true
    → Honours t c q
unfolding policy_conflicts
ready-Honours g q t c at h = record {
  triggers = ground arith;
  reviews_all = λ e. ground arith;
  independent = λ e. ground arith;
  blocks = λ e. ground arith;
}

Honours-ready :
    (g : ProjectGovernance) (q : GovernedReviewPolicy) (t : ProjectType) (c : ReviewChoice)
    → g.project_type ≡ some t
    → Honours t c q
    → is_empty (policy_conflicts g (some q) (some c)) ≡ true
unfolding policy_conflicts
Honours-ready g q t c at h = ground (arith, h.triggers, h.reviews_all, h.independent, h.blocks)

ready-IsGoverned :
    (g : ProjectGovernance) (p : Option GovernedReviewPolicy)
    → (evaluate_project_readiness g p).ready ≡ true
    → IsGoverned g p
unfolding evaluate_project_readiness missing_answers missing_confirmation own_conflicts
ready-IsGoverned g p h = elim (Option-cases g.project_type) [
  | inl missing ↦ absurd (ground arith)
  | inr (t, typed) ↦ elim (Option-cases g.review_choice) [
    | inl missing ↦ absurd (ground arith)
    | inr (c, chosen) ↦ elim (Option-cases g.decision_id) [
      | inl missing ↦ absurd (ground arith)
      | inr (i, decided) ↦ record {
        kind = t;
        choice = c;
        has_kind = typed;
        has_choice = chosen;
        client_reviewed = λ e e'. ground arith;
        decided = ground arith;
        decision = (i, decided);
        versioned = ground arith;
        supported = ground (arith, str_eq_iff g.policy_version policy_version);
        honoured = λ q is. ready-Honours g q t c typed (ground arith);
      }
    ]
  ]
]

answered :
    (g : ProjectGovernance) (p : Option GovernedReviewPolicy)
    → IsGoverned g p
    → (is_empty (missing_answers g) ≡ true)
      × (is_empty (missing_confirmation g) ≡ true)
      × (is_empty (own_conflicts g) ≡ true)
unfolding missing_answers missing_confirmation own_conflicts
answered g p h = (
  ground (arith, h.has_kind, h.has_choice),
  ground (arith, h.decided, h.decision, h.versioned),
  ground (
    arith,
    h.has_kind,
    h.has_choice,
    h.client_reviewed,
    choice_eq_iff h.choice ReviewChoice.off,
    h.supported,
    str_eq_iff g.policy_version policy_version,
  ),
)

no_policy :
    (g : ProjectGovernance) (c : Option ReviewChoice) → is_empty (policy_conflicts g none c) ≡ true
unfolding policy_conflicts
no_policy g c = refl

no_conflict :
    (g : ProjectGovernance) (p : Option GovernedReviewPolicy)
    → IsGoverned g p
    → is_empty (policy_conflicts g p g.review_choice) ≡ true
no_conflict g none h = no_policy g g.review_choice
no_conflict g (some q) h =
    subst (λ c. is_empty (policy_conflicts g (some q) c) ≡ true) (sym h.has_choice)
      (Honours-ready g q h.kind h.choice h.has_kind (h.honoured q refl))

IsGoverned-ready :
    (g : ProjectGovernance) (p : Option GovernedReviewPolicy)
    → IsGoverned g p
    → (evaluate_project_readiness g p).ready ≡ true
unfolding evaluate_project_readiness
IsGoverned-ready g p h =
    let (answers, confirmation, own) = answered g p h in
    ground (arith, answers, confirmation, own, no_conflict g p h)

-- A project is ready exactly when its type and its review choice are recorded in a confirmed decision
-- of the supported version, a client's choice is not to go without review, and the review policy that is in
-- force, if one is given, carries the choice out.
pub ready_iff :
    (g : ProjectGovernance) (p : Option GovernedReviewPolicy)
    → ((evaluate_project_readiness g p).ready ≡ true) ↔ IsGoverned g p
ready_iff g p = (ready-IsGoverned g p, IsGoverned-ready g p)
