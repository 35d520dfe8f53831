-- ===== src/Review.antt =====
-- src/review/policy.ts: the review policy, its presets, the decision whether a change is reviewed, and
-- what weakens a policy. A pattern is a text that `RegExp` reads; `regex_exec` stands for building it and running it: no
-- result for a text that is no pattern, and otherwise the text that matched, if any did.
pub mod Decide
pub mod Presets
pub mod Weaken
use multi_agent_build_system.Prelude.{
  ℕ, ◌+◌, String, Bool, true, false, ◌||◌, not, Option, none, some, List, [], ◌∷◌, str_eq, ◌==◌,
  if◌then◌else◌, is_some, is_empty, any, find, filter, is_blank, concat_text, decimal, trim,
  take_text, slash_text,
}
use multi_agent_build_system.Task.{TaskClass, mechanical, planning, research, review, class_eq}
use multi_agent_build_system.Governance.{ReviewTrigger, ReviewerRoute, CapacityAction}

pub data ChangeRisk : Type 0 where
  low medium high : ChangeRisk

abbrev pub change_risk_rank : ChangeRisk → ℕ
change_risk_rank low = 0
change_risk_rank medium = 1
change_risk_rank high = 2

pub data ReviewPreset : Type 0 where
  experiment personal client custom : ReviewPreset

pub data ReviewScope : Type 0 where
  change affected_components release : ReviewScope

pub data ReviewCadence : Type 0 where
  task milestone release : ReviewCadence

pub data QualityExpectation : Type 0 where
  advisory configured_checks acceptance_and_gates : QualityExpectation

pub data FindingSeverity : Type 0 where
  critical major minor : FindingSeverity

pub data ReviewMode : Type 0 where
  mode_required mode_substantive mode_none : ReviewMode

pub record RiskRule : Type 0 where
  pub id : String
  pub reason : String
  pub task_classes : List TaskClass
  pub change_risks : List ChangeRisk
  pub path_patterns : List String
  pub diff_patterns : List String
  pub always : Bool

pub record ReviewPolicy : Type 0 where
  pub version : String
  pub preset : ReviewPreset
  pub trigger : ReviewTrigger
  pub scope : ReviewScope
  pub cadence : ReviewCadence
  pub blocking_severities : List FindingSeverity
  pub risk_rules : List RiskRule
  pub reviewer_route : ReviewerRoute
  pub capacity_action : CapacityAction
  pub skip_task_classes : List TaskClass
  pub quality_expectation : QualityExpectation
  pub mode : ReviewMode

abbrev pub review_policy_version : String
review_policy_version = "review-policy-v2"

abbrev pub default_blocking_severities : List FindingSeverity
default_blocking_severities = critical ∷ major ∷ []

abbrev pub default_skip_task_classes : List TaskClass
default_skip_task_classes = mechanical ∷ planning ∷ research ∷ []

pub record ReviewSubject : Type 0 where
  pub task_class : TaskClass
  pub role : String
  pub change_risk : Option ChangeRisk

pub record ReviewInput : Type 0 where
  pub subject : ReviewSubject
  pub changed_files : List String
  pub diff_text : String
  pub manual_request : Bool

-- What a rule matched on.
pub data Evidence : Type 0 where
  every_class : Evidence
  of_class : TaskClass → Evidence
  of_risk : ChangeRisk → Evidence
  of_path of_diff : String → Evidence

pub record MatchedRiskRule : Type 0 where
  pub id : String
  pub reason : String
  pub evidence : Evidence

pub data DecisionReason : Type 0 where
  is_review requested left_off on_request_only excluded_class every_change : DecisionReason
  risk_matched nothing_matched : DecisionReason

-- The fields that a decision copies from the policy are those of the policy.
pub record ReviewDecision : Type 0 where
  pub review : Bool
  pub policy : ReviewPolicy
  pub matched_rules : List MatchedRiskRule
  pub reason : DecisionReason

abbrev pub has_class : List TaskClass → TaskClass → Bool
has_class classes c = any (λ x. class_eq x c) classes

abbrev pub has_risk : List ChangeRisk → Option ChangeRisk → Option ChangeRisk
has_risk risks none = none
has_risk risks (some r) =
    if any (λ x. change_risk_rank x == change_risk_rank r) risks then some r else none

abbrev pub trigger_rank : ReviewTrigger → ℕ
trigger_rank ReviewTrigger.off = 0
trigger_rank ReviewTrigger.manual = 1
trigger_rank ReviewTrigger.risk = 2
trigger_rank ReviewTrigger.required = 3

unfoldable pub mode_for_trigger : ReviewTrigger → ReviewMode
mode_for_trigger ReviewTrigger.off = mode_none
mode_for_trigger ReviewTrigger.required = mode_required
mode_for_trigger _ = mode_substantive

abbrev pub severity_rank : FindingSeverity → ℕ
severity_rank critical = 0
severity_rank major = 1
severity_rank minor = 2

abbrev pub has_severity : List FindingSeverity → FindingSeverity → Bool
has_severity severities s = any (λ x. severity_rank x == severity_rank s) severities

-- `[...new Set(xs)]` of classes and of severities
unfoldable pub unique_classes : List TaskClass → List TaskClass → List TaskClass
unique_classes seen [] = []
unique_classes seen (c ∷ classes) =
    let rest = unique_classes seen classes in
    let more = unique_classes (c ∷ seen) classes in if has_class seen c then rest else c ∷ more

unique_severities : List FindingSeverity → List FindingSeverity → List FindingSeverity
unique_severities seen [] = []
unique_severities seen (s ∷ severities) =
    let rest = unique_severities seen severities in
    let more = unique_severities (s ∷ seen) severities in
    if has_severity seen s then rest else s ∷ more

-- The strings that are not empty
abbrev texts : List String → List String
texts xs = filter (λ x. not (str_eq x "")) xs

-- `typeof text === "string" && text.trim() ? text.trim() : fallback`
abbrev trimmed_or : String → String → String
trimmed_or text fallback = if is_blank text then fallback else trim text

abbrev named_rule : RiskRule → ℕ → RiskRule
named_rule rule index = record rule {
  id = trimmed_or rule.id (concat_text "risk-rule-" (decimal (index + 1)));
  reason = trimmed_or rule.reason "Configured risk rule.";
  path_patterns = texts rule.path_patterns;
  diff_patterns = texts rule.diff_patterns;
}

abbrev can_match : RiskRule → Bool
can_match rule =
    rule.always
    || not (is_empty rule.task_classes)
    || not (is_empty rule.change_risks)
    || not (is_empty rule.path_patterns)
    || not (is_empty rule.diff_patterns)

-- `normalizeRiskRule`, for the rule at an index; an absent list of a rule is the empty one.
unfoldable normalize_risk_rule : RiskRule → ℕ → Option RiskRule
unfolding decimal
normalize_risk_rule rule index =
    if can_match (named_rule rule index) then some (named_rule rule index) else none

unfoldable pub normalize_rules : ℕ → List RiskRule → List RiskRule
unfolding normalize_risk_rule
normalize_rules index [] = []
normalize_rules index (rule ∷ rules) =
    let rest = normalize_rules (index + 1) rules in
    elim (normalize_risk_rule rule index) [ none ↦ rest | some r ↦ r ∷ rest ]

-- `normalizeReviewPolicy`, of a policy whose fields have the declared types
unfoldable pub normalize_review_policy : ReviewPolicy → ReviewPolicy
unfolding unique_classes unique_severities normalize_rules mode_for_trigger
normalize_review_policy p = record p {
  version = review_policy_version;
  blocking_severities =
      if is_empty p.blocking_severities
      then default_blocking_severities
      else unique_severities [] p.blocking_severities;
  risk_rules = normalize_rules 0 p.risk_rules;
  skip_task_classes =
      if trigger_rank p.trigger == 3 then [] else unique_classes [] p.skip_task_classes;
  mode = mode_for_trigger p.trigger;
}

abbrev decision : ReviewPolicy → Bool → List MatchedRiskRule → DecisionReason → ReviewDecision
decision policy b matched why = record {
  review = b;
  policy = policy;
  matched_rules = matched;
  reason = why;
}

module _ (regex_exec : String → String → Option (Option String)) where
  -- `expression.test(path)`, false too where the text is no pattern and the loop goes on
  pub tests : String → String → Bool
  tests pattern s = elim (regex_exec pattern s) [ none ↦ false | some m ↦ is_some m ]

  -- A path that is the empty text is found and then taken for none.
  path_hit : List String → List String → Option String
  unfolding tests
  path_hit [] files = none
  path_hit (p ∷ patterns) files =
      let rest = path_hit patterns files in
      elim (find (λ f. tests p (slash_text f)) files) [
        | none ↦ rest
        | some f ↦ if str_eq f "" then rest else some f
      ]

  diff_hit : List String → String → Option String
  diff_hit [] diff = none
  diff_hit (p ∷ patterns) diff =
      let rest = diff_hit patterns diff in
      elim (regex_exec p diff) [
        | none ↦ rest
        | some m ↦ elim m [ none ↦ rest | some t ↦ some (take_text 80 t) ]
      ]

  -- The evidence of the first condition that holds.
  evidence_of : RiskRule → ReviewInput → Option Evidence
  unfolding path_hit diff_hit
  evidence_of rule i =
      if rule.always
      then some every_class
      else (if has_class rule.task_classes i.subject.task_class
          then some (of_class i.subject.task_class)
          else elim (has_risk rule.change_risks i.subject.change_risk) [
            | some r ↦ some (of_risk r)
            | none ↦ elim (path_hit rule.path_patterns i.changed_files) [
              | some f ↦ some (of_path f)
              | none ↦ elim (diff_hit rule.diff_patterns i.diff_text) [
                | some t ↦ some (of_diff t)
                | none ↦ none
              ]
            ]
          ])

  pub match_rule : RiskRule → ReviewInput → Option MatchedRiskRule
  unfolding evidence_of
  match_rule rule i = elim (evidence_of rule i) [
    | none ↦ none
    | some e ↦ some (record { id = rule.id; reason = rule.reason; evidence = e })
  ]

  pub matched_rules : List RiskRule → ReviewInput → List MatchedRiskRule
  unfolding match_rule
  matched_rules [] i = []
  matched_rules (rule ∷ rules) i =
      let rest = matched_rules rules i in
      elim (match_rule rule i) [ none ↦ rest | some m ↦ m ∷ rest ]

  -- The decision on a policy that is normalized.
  pub decide_review : ReviewPolicy → ReviewInput → ReviewDecision
  unfolding matched_rules
  decide_review policy i =
      let rules = matched_rules policy.risk_rules i in
      if str_eq i.subject.role "reviewer"
      then decision policy false [] is_review
      else (if i.manual_request
          then decision policy true [] requested
          else (if trigger_rank policy.trigger == 0
              then decision policy false [] left_off
              else (if trigger_rank policy.trigger == 1
                  then decision policy false [] on_request_only
                  else (if has_class policy.skip_task_classes i.subject.task_class
                      then decision policy false [] excluded_class
                      else (if trigger_rank policy.trigger == 3
                          then decision policy true [] every_change
                          else (if not (is_empty rules)
                              then decision policy true rules risk_matched
                              else decision policy false [] nothing_matched))))))

  -- A policy whose fields have the declared types; what is no such policy is a matter of untyped JSON.
  pub evaluate_review_policy : ReviewPolicy → ReviewInput → ReviewDecision
  unfolding decide_review
  evaluate_review_policy policy i = decide_review (normalize_review_policy policy) i
