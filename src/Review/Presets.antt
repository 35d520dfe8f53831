-- ===== src/Review/Presets.antt =====
-- src/review/policy.ts: the presets, and the policy that a governance decision resolves to.
pub mod Governed
use multi_agent_build_system.Prelude.{false, some, List, [], ◌∷◌, if◌then◌else◌}
use multi_agent_build_system.Task.{complex_coding}
use multi_agent_build_system.Governance.{
  ProjectType, ReviewChoice, ReviewTrigger, independent_provider, CapacityAction, pending,
  is_client,
}
use multi_agent_build_system.Review.{
  high, ReviewPreset, custom, change, affected_components, ReviewCadence, advisory,
  configured_checks, acceptance_and_gates, mode_required, mode_substantive, mode_none, RiskRule,
  ReviewPolicy, review_policy_version, default_blocking_severities, default_skip_task_classes,
}

abbrev elevated_risk : RiskRule
elevated_risk = record {
  id = "declared-elevated-risk";
  reason = "The task is registered as a high-risk change.";
  task_classes = [];
  change_risks = high ∷ [];
  path_patterns = [];
  diff_patterns = [];
  always = false;
}

abbrev complex_change : RiskRule
complex_change = record {
  id = "complex-change";
  reason = "Complex coding changes carry more behavioural risk than a small edit.";
  task_classes = complex_coding ∷ [];
  change_risks = [];
  path_patterns = [];
  diff_patterns = [];
  always = false;
}

abbrev credentials : RiskRule
credentials = record {
  id = "authentication-or-credentials";
  reason = "The change touches authentication, session, or credential handling.";
  task_classes = [];
  change_risks = [];
  path_patterns =
      "(^|/)(auth|authn|authz|login|session|password|credential|secret|token)[^/]*(/|\\.|$)" ∷ [];
  diff_patterns =
      "\\b(api[_-]?key|access[_-]?token|refresh[_-]?token|private[_-]?key|authorization header)\\b"
      ∷ [];
  always = false;
}

abbrev migrations : RiskRule
migrations = record {
  id = "schema-or-migration";
  reason = "The change touches a schema or migration, where mistakes are hard to reverse.";
  task_classes = [];
  change_risks = [];
  path_patterns = "(^|/)(migrations?|schema)[^/]*(/|\\.|$)" ∷ "\\.sql$" ∷ [];
  diff_patterns = "\\b(drop|alter|truncate)\\s+(table|column|database)\\b" ∷ [];
  always = false;
}

abbrev destructive : RiskRule
destructive = record {
  id = "destructive-operations";
  reason = "The change introduces a destructive file or data operation.";
  task_classes = [];
  change_risks = [];
  path_patterns = [];
  diff_patterns =
      "\\brm\\s+-rf\\b" ∷ "\\brmSync\\(" ∷ "\\bshutil\\.rmtree\\b" ∷ "\\bdelete\\s+from\\b"
      ∷ "\\bgit\\s+push\\s+--force\\b" ∷ [];
  always = false;
}

abbrev deployment : RiskRule
deployment = record {
  id = "deployment-or-ci-configuration";
  reason = "The change touches deployment or continuous-integration configuration.";
  task_classes = [];
  change_risks = [];
  path_patterns =
      "^\\.github/workflows/"
      ∷ "(^|/)(dockerfile|docker-compose|deploy|k8s|helm|terraform)[^/]*(/|\\.|$)"
      ∷ "\\.(tf|tfvars)$" ∷ [];
  diff_patterns = [];
  always = false;
}

abbrev pub default_risk_rules : List RiskRule
default_risk_rules =
    elevated_risk ∷ complex_change ∷ credentials ∷ migrations ∷ destructive ∷ deployment ∷ []

-- The presets that have a policy of their own.
pub data NamedPreset : Type 0 where
  experiment_preset personal_preset client_preset : NamedPreset

abbrev pub preset_policy : NamedPreset → ReviewPolicy
preset_policy experiment_preset = record {
  version = review_policy_version;
  preset = ReviewPreset.experiment;
  trigger = ReviewTrigger.off;
  scope = change;
  cadence = ReviewCadence.task;
  blocking_severities = default_blocking_severities;
  risk_rules = [];
  reviewer_route = independent_provider;
  capacity_action = pending;
  skip_task_classes = default_skip_task_classes;
  quality_expectation = advisory;
  mode = mode_none;
}
preset_policy personal_preset = record {
  version = review_policy_version;
  preset = ReviewPreset.personal;
  trigger = ReviewTrigger.risk;
  scope = change;
  cadence = ReviewCadence.task;
  blocking_severities = default_blocking_severities;
  risk_rules = default_risk_rules;
  reviewer_route = independent_provider;
  capacity_action = pending;
  skip_task_classes = default_skip_task_classes;
  quality_expectation = configured_checks;
  mode = mode_substantive;
}
preset_policy client_preset = record {
  version = review_policy_version;
  preset = ReviewPreset.client;
  trigger = ReviewTrigger.required;
  scope = affected_components;
  cadence = ReviewCadence.release;
  blocking_severities = default_blocking_severities;
  risk_rules = default_risk_rules;
  reviewer_route = independent_provider;
  capacity_action = CapacityAction.blocked;
  skip_task_classes = [];
  quality_expectation = acceptance_and_gates;
  mode = mode_required;
}

unfoldable pub review_policy_for_governance : ProjectType → ReviewChoice → ReviewPolicy
review_policy_for_governance t ReviewChoice.risk = preset_policy personal_preset
review_policy_for_governance t ReviewChoice.off = record (preset_policy experiment_preset) {
  preset = custom;
  quality_expectation = configured_checks;
}
review_policy_for_governance t ReviewChoice.required = record (preset_policy client_preset) {
  preset = if is_client (some t) then ReviewPreset.client else custom;
  cadence = ReviewCadence.task;
}
