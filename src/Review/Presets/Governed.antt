-- ===== src/Review/Presets/Governed.antt =====
-- src/review/policy.ts with src/domain/project-policy.ts: a recorded decision and the policy that
-- it resolves to.
use multi_agent_build_system.Prelude.{
  ℕ, ◌≤◌, String, ◌≡◌, refl, subst, ◌≢◌, true, Option, some, arith, ok,
}
use multi_agent_build_system.Governance.{
  ProjectType, ReviewChoice, policy_version, confirmed, ProjectGovernance, independent_provider,
  CapacityAction, GovernedReviewPolicy, evaluate_project_readiness, assert_governance_decision,
}
use multi_agent_build_system.Governance.Ready.{Honours, ready_iff}
use multi_agent_build_system.Review.{ReviewPolicy, ReviewInput, decision, evaluate_review_policy}
use multi_agent_build_system.Review.Presets.{review_policy_for_governance}
use multi_agent_build_system.Review.Decide.{reviewed_iff}

-- What readiness reads of a review policy.
abbrev pub governed : ReviewPolicy → GovernedReviewPolicy
governed p = record {
  trigger = p.trigger;
  reviewer_route = p.reviewer_route;
  capacity_action = p.capacity_action;
  skip_task_classes = p.skip_task_classes;
}

-- A decision as it is recorded.
abbrev pub recorded : ProjectType → ReviewChoice → String → ℕ → ProjectGovernance
recorded t c decision version = record {
  project_type = some t;
  review_choice = some c;
  decision_state = confirmed;
  decision_id = some decision;
  policy_version = policy_version;
  version = version;
}

resolved-Honours :
    (t : ProjectType) (c : ReviewChoice)
    → assert_governance_decision t c ≡ ok tt
    → Honours t c (governed (review_policy_for_governance t c))
unfolding assert_governance_decision review_policy_for_governance
resolved-Honours t c h = record {
  triggers = ground arith;
  reviews_all = λ e. ground arith;
  independent = λ e. ground arith;
  blocks = λ e. ground arith;
}

client_choice :
    (t : ProjectType) (c : ReviewChoice)
    → assert_governance_decision t c ≡ ok tt
    → t ≡ ProjectType.client
    → c ≢ ReviewChoice.off
unfolding assert_governance_decision
client_choice t c h e e' = ground arith

some_injective : {p q : GovernedReviewPolicy} → some p ≡ some q → p ≡ q
some_injective e = cc

-- A decision that `assertGovernanceDecision` lets pass is ready with the review policy that it resolves to.
pub resolved_ready :
    (t : ProjectType) (c : ReviewChoice) (decision : String) (version : ℕ)
    → assert_governance_decision t c ≡ ok tt
    → 1 ≤ version
    → (evaluate_project_readiness
        (recorded t c decision version)
        (some (governed (review_policy_for_governance t c)))).ready
      ≡ true
resolved_ready t c decision version h v =
    (ready_iff (recorded t c decision version)
        (some (governed (review_policy_for_governance t c)))).1
      (record {
        kind = t;
        choice = c;
        has_kind = refl;
        has_choice = refl;
        client_reviewed = client_choice t c h;
        decided = refl;
        decision = (decision, refl);
        versioned = v;
        supported = refl;
        honoured = λ q same. subst (Honours t c) (some_injective same) (resolved-Honours t c h);
      })

-- A client decision that passes leaves no change unreviewed, but the tasks that are reviews themselves,
-- and it waits for a reviewer of another provider.
pub client_reviewed :
    (regex_exec : String → String → Option (Option String)) (c : ReviewChoice) (i : ReviewInput)
    → assert_governance_decision ProjectType.client c ≡ ok tt
    → i.subject.role ≢ "reviewer"
    → ((evaluate_review_policy regex_exec
          (review_policy_for_governance ProjectType.client c)
          i).review
        ≡ true)
      × ((review_policy_for_governance ProjectType.client c).reviewer_route ≡ independent_provider)
      × ((review_policy_for_governance ProjectType.client c).capacity_action
          ≡ CapacityAction.blocked)
unfolding assert_governance_decision review_policy_for_governance
client_reviewed regex_exec c i h own =
    ground (arith, reviewed_iff regex_exec (review_policy_for_governance ProjectType.client c) i)
