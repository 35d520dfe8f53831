-- ===== src/Review/Weaken.antt =====
-- src/review/policy.ts: `weakensReview`.
use multi_agent_build_system.Prelude.{
  ℕ, ◌≤◌, String, ◌≡◌, subst, ◌↔◌, ◌⊎◌, inl, inr, Bool, true, false, not, Option, List, [], ◌∷◌,
  ◌++◌, arith, ltb, ◌==◌, Bool-cases, is_empty, all, filter, when,
}
use multi_agent_build_system.Task.{TaskClass, class_eq, class_eq_lem}
use multi_agent_build_system.Governance.{ReviewTrigger}
use multi_agent_build_system.Review.{
  QualityExpectation, advisory, configured_checks, acceptance_and_gates, FindingSeverity,
  ReviewPolicy, ReviewInput, has_class, trigger_rank, severity_rank, has_severity, normalize_rules,
  matched_rules, evaluate_review_policy,
}
use multi_agent_build_system.Review.Decide.{reviewed_iff}

abbrev expectation_rank : QualityExpectation → ℕ
expectation_rank advisory = 0
expectation_rank configured_checks = 1
expectation_rank acceptance_and_gates = 2

pub data Weakening : Type 0 where
  trigger_weakened : ReviewTrigger → ReviewTrigger → Weakening
  skips_more : List TaskClass → Weakening
  blocks_less : List FindingSeverity → Weakening
  expects_less : QualityExpectation → QualityExpectation → Weakening

abbrev added_skips : ReviewPolicy → ReviewPolicy → List TaskClass
added_skips from to = filter (λ c. not (has_class from.skip_task_classes c)) to.skip_task_classes

abbrev dropped_severities : ReviewPolicy → ReviewPolicy → List FindingSeverity
dropped_severities from to =
    filter (λ s. not (has_severity to.blocking_severities s)) from.blocking_severities

unfoldable pub weakens_review : ReviewPolicy → ReviewPolicy → List Weakening
weakens_review from to =
    when (ltb (trigger_rank to.trigger) (trigger_rank from.trigger))
      (trigger_weakened from.trigger to.trigger)
    ++ when (not (is_empty (added_skips from to))) (skips_more (added_skips from to))
    ++ when (not (is_empty (dropped_severities from to))) (blocks_less (dropped_severities from to))
    ++ when
        (ltb (expectation_rank to.quality_expectation) (expectation_rank from.quality_expectation))
        (expects_less from.quality_expectation to.quality_expectation)

class_eq_iff : (a b : TaskClass) → (class_eq a b ≡ true) ↔ (a ≡ b)
class_eq_iff a b = class_eq_lem a b

kept_class :
    (p : TaskClass → Bool) (classes : List TaskClass) (c : TaskClass)
    → is_empty (filter (λ x. not (p x)) classes) ≡ true
    → has_class classes c ≡ true
    → p c ≡ true
kept_class p [] c h at = cc
kept_class p (x ∷ classes) c h at = elim (Bool-cases (class_eq x c)) [
  | inl same ↦ subst (λ y. p y ≡ true) ((class_eq_iff x c).0 same) (ground arith)
  | inr differs ↦ kept_class p classes c (ground arith) (ground arith)
]

severity_same : (a b : FindingSeverity) → (severity_rank a == severity_rank b) ≡ true → a ≡ b
severity_same a b h = ground arith

kept_severity :
    (p : FindingSeverity → Bool) (xs : List FindingSeverity) (s : FindingSeverity)
    → is_empty (filter (λ x. not (p x)) xs) ≡ true
    → has_severity xs s ≡ true
    → p s ≡ true
kept_severity p [] s h at = cc
kept_severity p (x ∷ xs) s h at = elim (Bool-cases (severity_rank x == severity_rank s)) [
  | inl same ↦ subst (λ y. p y ≡ true) (severity_same x s same) (ground arith)
  | inr differs ↦ kept_severity p xs s (ground arith) (ground arith)
]

-- What a change of policy that weakens nothing has kept.
record IsAsStrict (from to : ReviewPolicy) : Type 0 where
  triggers : trigger_rank from.trigger ≤ trigger_rank to.trigger
  skips : is_empty (added_skips from to) ≡ true
  blocks : is_empty (dropped_severities from to) ≡ true

none_weaker :
    (from to : ReviewPolicy) → is_empty (weakens_review from to) ≡ true → IsAsStrict from to
unfolding weakens_review
none_weaker from to h = record {
  triggers = ground arith;
  skips = ground arith;
  blocks = ground arith;
}

not_skipped :
    (from to : ReviewPolicy) (c : TaskClass)
    → IsAsStrict from to
    → has_class from.skip_task_classes c ≡ false
    → has_class to.skip_task_classes c ≡ false
not_skipped from to c strict allowed = elim (Bool-cases (has_class to.skip_task_classes c)) [
  | inl skipped ↦ absurd (
      ground (
        arith,
        allowed,
        kept_class (has_class from.skip_task_classes) to.skip_task_classes c strict.skips skipped,
      ))
  | inr kept ↦ kept
]

at_least_risk :
    (b : ReviewTrigger)
    → 2 ≤ trigger_rank b
    → (b ≡ ReviewTrigger.required) ⊎ (b ≡ ReviewTrigger.risk)
at_least_risk b h = ground arith

top_trigger :
    (a b : ReviewTrigger)
    → trigger_rank a ≤ trigger_rank b
    → a ≡ ReviewTrigger.required
    → b ≡ ReviewTrigger.required
top_trigger a b le e = ground arith

still_reviewed :
    (regex_exec : String → String → Option (Option String)) (from to : ReviewPolicy)
    (i : ReviewInput)
    → IsAsStrict from to
    → (from.risk_rules ≡ to.risk_rules)
    → (evaluate_review_policy regex_exec from i).review ≡ true
    → (evaluate_review_policy regex_exec to i).review ≡ true
still_reviewed regex_exec from to i strict rules h =
    let (own, why) = (reviewed_iff regex_exec from i).0 h in
    (reviewed_iff regex_exec to i).1 (
      own,
      elim why [
        | inl asked ↦ inl asked
        | inr (inl all) ↦ inr (inl (top_trigger from.trigger to.trigger strict.triggers all))
        | inr (inr (e, allowed, risky)) ↦
            elim (at_least_risk to.trigger (ground (arith, e, strict.triggers))) [
              | inl top ↦ inr (inl top)
              | inr r ↦ inr (
                  inr (
                    r,
                    not_skipped from to i.subject.task_class strict allowed,
                    subst (λ x. is_empty (matched_rules regex_exec (normalize_rules 0 x) i) ≡ false)
                        rules risky,
                  ))
            ]
      ],
    )

-- A change of policy in which `weakensReview` finds nothing, and which keeps the risk rules, leaves no
-- change unreviewed that was reviewed before, and lets no severity pass that blocked before.
pub not_weaker :
    (regex_exec : String → String → Option (Option String)) (from to : ReviewPolicy)
    → is_empty (weakens_review from to) ≡ true
    → from.risk_rules ≡ to.risk_rules
    → ((i : ReviewInput)
        → (evaluate_review_policy regex_exec from i).review ≡ true
        → (evaluate_review_policy regex_exec to i).review ≡ true)
      × ((s : FindingSeverity)
          → has_severity from.blocking_severities s ≡ true
          → has_severity to.blocking_severities s ≡ true)
not_weaker regex_exec from to h rules =
    let strict : IsAsStrict from to = none_weaker from to h in
    (
      λ i. still_reviewed regex_exec from to i strict rules,
      λ s.
          kept_severity (has_severity to.blocking_severities) from.blocking_severities s
            strict.blocks,
    )
