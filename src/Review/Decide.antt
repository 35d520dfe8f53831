-- ===== src/Review/Decide.antt =====
-- src/review/policy.ts: when a change is reviewed.
use multi_agent_build_system.Prelude.{
  String, ◌≡◌, refl, ap, ◌≢◌, ◌↔◌, ◌⊎◌, inl, inr, true, false, ◌&&◌, not, Option, List, [], ◌∷◌,
  arith, str_eq_iff, ◌==◌, if◌then◌else◌, Bool-cases, is_empty,
}
use multi_agent_build_system.Task.{TaskClass, class_eq, class_eq_lem}
use multi_agent_build_system.Governance.{ReviewTrigger}
use multi_agent_build_system.Review.{
  ReviewPolicy, ReviewInput, has_class, trigger_rank, unique_classes, normalize_rules,
  normalize_review_policy, matched_rules, decide_review, evaluate_review_policy,
}

-- A class that equals one that was seen has been seen.
seen_same :
    (seen : List TaskClass) (x c : TaskClass)
    → class_eq x c ≡ true
    → has_class seen x ≡ has_class seen c
seen_same seen x c same = ap (has_class seen) ((class_eq_lem x c).0 same)

unique_classes-has :
    (seen classes : List TaskClass) (c : TaskClass)
    → has_class (unique_classes seen classes) c ≡ has_class classes c && not (has_class seen c)
unfolding unique_classes
unique_classes-has seen [] c = refl
unique_classes-has seen (x ∷ classes) c = elim (Bool-cases (has_class seen x)) [
  | inl known ↦
      let rest = unique_classes-has seen classes c in
      ground (arith, known, rest, seen_same seen x c)
  | inr fresh ↦
      let rest = unique_classes-has (x ∷ seen) classes c in
      ground (arith, fresh, rest, seen_same seen x c)
]

module _ (regex_exec : String → String → Option (Option String)) where
  -- Some risk rule of the policy, as it is normalized, matches the change.
  abbrev pub IsRisky : ReviewPolicy → ReviewInput → Type 0
  IsRisky policy i =
      is_empty (matched_rules regex_exec (normalize_rules 0 policy.risk_rules) i) ≡ false

  -- The cascade, for a policy that is normalized.
  decided :
      (policy : ReviewPolicy) (i : ReviewInput)
      → ((decide_review regex_exec policy i).review ≡ true) ↔ (
          (i.subject.role ≢ "reviewer")
          × ((i.manual_request ≡ true)
              ⊎ ((has_class policy.skip_task_classes i.subject.task_class ≡ false)
                  × ((policy.trigger ≡ ReviewTrigger.required)
                      ⊎ ((policy.trigger ≡ ReviewTrigger.risk)
                          × (is_empty (matched_rules regex_exec policy.risk_rules i) ≡ false))))))
  unfolding decide_review
  decided policy i = ground (arith, str_eq_iff i.subject.role "reviewer")

  -- What a policy that is normalized skips.
  skipped :
      (policy : ReviewPolicy) (c : TaskClass)
      → has_class (normalize_review_policy policy).skip_task_classes c
        ≡ (if trigger_rank policy.trigger == 3 then false else has_class policy.skip_task_classes c)
  unfolding normalize_review_policy
  skipped policy c = ground (arith, unique_classes-has [] policy.skip_task_classes c)

  normalized_rules :
      (policy : ReviewPolicy)
      → (normalize_review_policy policy).risk_rules ≡ normalize_rules 0 policy.risk_rules
  unfolding normalize_review_policy
  normalized_rules policy = refl

  normalized_trigger :
      (policy : ReviewPolicy) → (normalize_review_policy policy).trigger ≡ policy.trigger
  unfolding normalize_review_policy
  normalized_trigger policy = refl

  -- A change is reviewed exactly when the task is no review itself and a person asked for it, or the policy
  -- requires every review, whatever classes it names as skipped, or the policy reviews by risk, does not
  -- skip the task's class, and one of its risk rules, as they are normalized, matches the change.
  pub reviewed_iff :
      (policy : ReviewPolicy) (i : ReviewInput)
      → ((evaluate_review_policy regex_exec policy i).review ≡ true) ↔ (
          (i.subject.role ≢ "reviewer")
          × ((i.manual_request ≡ true)
              ⊎ (policy.trigger ≡ ReviewTrigger.required)
              ⊎ ((policy.trigger ≡ ReviewTrigger.risk)
                  × (has_class policy.skip_task_classes i.subject.task_class ≡ false)
                  × IsRisky policy i)))
  unfolding evaluate_review_policy
  reviewed_iff policy i = ground (
    arith,
    decided (normalize_review_policy policy) i,
    skipped policy i.subject.task_class,
    normalized_rules policy,
    normalized_trigger policy,
  )
