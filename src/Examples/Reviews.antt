-- ===== src/Examples/Reviews.antt =====
-- Governance and review at concrete inputs. The regular expression engine finds a pattern in a text
-- that is the pattern itself.
use multi_agent_build_system.Prelude.{
  String, ◌≡◌, refl, ◌≢◌, ◌↔◌, ◌⊎◌, true, false, Option, none, some, [], ◌∷◌, arith, str_eq,
  str_eq_iff, if◌then◌else◌, is_empty, ok,
}
use multi_agent_build_system.Task.{small_implementation, class_eq}
use multi_agent_build_system.Governance.{
  ProjectType, ReviewChoice, resolve_review_choice, unresolved_governance, ReviewTrigger,
  independent_provider, CapacityAction, evaluate_project_readiness, assert_governance_decision,
}
use multi_agent_build_system.Governance.Ready.{IsGoverned, ready_iff}
use multi_agent_build_system.Review.{
  high, FindingSeverity, ReviewPolicy, default_blocking_severities, ReviewInput, has_class,
  has_severity, evaluate_review_policy,
}
use multi_agent_build_system.Review.Decide.{IsRisky, reviewed_iff}
use multi_agent_build_system.Review.Presets.{
  personal_preset, client_preset, preset_policy, review_policy_for_governance,
}
use multi_agent_build_system.Review.Presets.Governed.{client_reviewed}
use multi_agent_build_system.Review.Weaken.{weakens_review, not_weaker}

abbrev literal_exec : String → String → Option (Option String)
literal_exec pattern s = some (if str_eq pattern s then some s else none)

abbrev implementer : String
implementer = "implementer"

abbrev migration : ReviewInput
migration = record {
  subject = record {
    task_class = small_implementation;
    role = implementer;
    change_risk = some high;
  };
  changed_files = "db/schema.sql" ∷ [];
  diff_text = "";
  manual_request = false;
}

not_reviewer : implementer ≢ "reviewer"
not_reviewer e = ground (arith, str_eq_iff implementer "reviewer")

client_reviewed_example :
    ((evaluate_review_policy literal_exec
        (review_policy_for_governance ProjectType.client ReviewChoice.required)
        migration).review
      ≡ true)
    × ((review_policy_for_governance ProjectType.client ReviewChoice.required).reviewer_route
        ≡ independent_provider)
    × ((review_policy_for_governance ProjectType.client ReviewChoice.required).capacity_action
        ≡ CapacityAction.blocked)
unfolding assert_governance_decision
client_reviewed_example =
    client_reviewed literal_exec ReviewChoice.required migration refl not_reviewer

ready_iff_example :
    ((evaluate_project_readiness unresolved_governance none).ready ≡ true)
    ↔ IsGoverned unresolved_governance none
ready_iff_example = ready_iff unresolved_governance none

-- The classes that a policy names as skipped do not count where it requires every review.
abbrev skipping : ReviewPolicy
skipping = record (preset_policy client_preset) { skip_task_classes = small_implementation ∷ [] }

reviewed_iff_example : ((evaluate_review_policy literal_exec skipping migration).review ≡ true) ↔ (
    (implementer ≢ "reviewer")
    × ((false ≡ true)
        ⊎ (ReviewTrigger.required ≡ ReviewTrigger.required)
        ⊎ ((ReviewTrigger.required ≡ ReviewTrigger.risk)
            × (has_class (small_implementation ∷ []) small_implementation ≡ false)
            × IsRisky literal_exec skipping migration)))
reviewed_iff_example = reviewed_iff literal_exec skipping migration

abbrev stricter : ReviewPolicy
stricter = record (preset_policy personal_preset) {
  trigger = ReviewTrigger.required;
  skip_task_classes = [];
}

nothing_weaker : is_empty (weakens_review (preset_policy personal_preset) stricter) ≡ true
unfolding weakens_review class_eq
nothing_weaker = refl

not_weaker_example :
    ((i : ReviewInput)
      → (evaluate_review_policy literal_exec (preset_policy personal_preset) i).review ≡ true
      → (evaluate_review_policy literal_exec stricter i).review ≡ true)
    × ((s : FindingSeverity)
        → has_severity default_blocking_severities s ≡ true
        → has_severity default_blocking_severities s ≡ true)
not_weaker_example =
    not_weaker literal_exec (preset_policy personal_preset) stricter nothing_weaker refl

resolves :
    resolve_review_choice (some "verified") (some "required") ≡ ok (some ReviewChoice.required)
unfolding resolve_review_choice
resolves = refl
