-- ===== src/Policy.antt =====
-- src/domain/policy.ts: which actions need an approval, and what an approval is bound to.
pub mod Decisions
use multi_agent_build_system.Prelude.{
  ℕ, String, ◌≡◌, sym, ap, ◌∙◌, ◌↔◌, Bool, true, false, ◌&&◌, not, Option, none, some, List, [],
  ◌∷◌, ◌++◌, arith, str_eq, ◌==◌, if◌then◌else◌, ==_iff, or_default, any, when,
}

pub data Action : Type 0 where
  edit_worktree run_checks local_commit add_runtime_dependency breaking_interface_change : Action
  scope_change architecture_change push_branch open_pull_request merge deploy : Action
  destructive_migration shared_data_deletion waive_required_gate activate_config_change : Action
  external_cost : Action

pub data ApprovalRule : Type 0 where
  automatic approval_required automatic_if_in_scope standing_authorization : ApprovalRule

-- The position of an action in `ACTIONS`.
abbrev pub action_rank : Action → ℕ
action_rank edit_worktree = 0
action_rank run_checks = 1
action_rank local_commit = 2
action_rank add_runtime_dependency = 3
action_rank breaking_interface_change = 4
action_rank scope_change = 5
action_rank architecture_change = 6
action_rank push_branch = 7
action_rank open_pull_request = 8
action_rank merge = 9
action_rank deploy = 10
action_rank destructive_migration = 11
action_rank shared_data_deletion = 12
action_rank waive_required_gate = 13
action_rank activate_config_change = 14
action_rank external_cost = 15

-- `===` on actions
abbrev pub action_eq : Action → Action → Bool
action_eq a b = action_rank a == action_rank b

abbrev action_of : ℕ → Action
action_of n =
    if n == 0
    then edit_worktree
    else if n == 1
    then run_checks
    else if n == 2
    then local_commit
    else if n == 3
    then add_runtime_dependency
    else if n == 4
    then breaking_interface_change
    else if n == 5
    then scope_change
    else if n == 6
    then architecture_change
    else if n == 7
    then push_branch
    else if n == 8
    then open_pull_request
    else if n == 9
    then merge
    else if n == 10
    then deploy
    else if n == 11
    then destructive_migration
    else if n == 12
    then shared_data_deletion
    else if n == 13
    then waive_required_gate
    else if n == 14
    then activate_config_change
    else external_cost

action_of_rank : (a : Action) → action_of (action_rank a) ≡ a
action_of_rank a = ground arith

pub action_eq_iff : (a b : Action) → (action_eq a b ≡ true) ↔ (a ≡ b)
action_eq_iff a b = (
  λ h.
      sym (action_of_rank a)
      ∙ ap action_of ((==_iff (action_rank a) (action_rank b)).0 h)
      ∙ action_of_rank b,
  λ e. (==_iff (action_rank a) (action_rank b)).1 (ap action_rank e),
)

-- A missing key of `overrides` is null.
pub record ProjectApprovalPolicy : Type 0 where
  pub overrides : Action → Option ApprovalRule
  pub standing : List Action

-- `DEFAULT_POLICY`
unfoldable pub default_policy : Action → ApprovalRule
default_policy edit_worktree = automatic
default_policy run_checks = automatic
default_policy local_commit = automatic
default_policy add_runtime_dependency = automatic_if_in_scope
default_policy breaking_interface_change = automatic_if_in_scope
default_policy scope_change = approval_required
default_policy architecture_change = approval_required
default_policy push_branch = standing_authorization
default_policy open_pull_request = standing_authorization
default_policy merge = approval_required
default_policy deploy = approval_required
default_policy destructive_migration = approval_required
default_policy shared_data_deletion = approval_required
default_policy waive_required_gate = approval_required
default_policy activate_config_change = approval_required
default_policy external_cost = approval_required

abbrev consequential_actions : List Action
consequential_actions =
    push_branch ∷ open_pull_request ∷ merge ∷ deploy ∷ destructive_migration ∷ shared_data_deletion
    ∷ external_cost ∷ []

unfoldable pub is_consequential : Action → Bool
is_consequential action = any (λ a. action_eq a action) consequential_actions

pub record PolicyDecision : Type 0 where
  pub requires_approval : Bool
  pub rule : ApprovalRule
  pub reason : String

-- `policy?.standing?.includes(action)`
abbrev pub is_standing : Option ProjectApprovalPolicy → Action → Bool
is_standing none action = false
is_standing (some p) action = any (λ a. action_eq a action) p.standing

-- `policy?.overrides?.[action] ?? DEFAULT_POLICY[action]`
unfoldable pub rule_for : Option ProjectApprovalPolicy → Action → ApprovalRule
rule_for none action = default_policy action
rule_for (some p) action = or_default (p.overrides action) (default_policy action)

-- The `switch` of `evaluate`.
unfoldable pub apply_rule :
    ApprovalRule → Action → Option ProjectApprovalPolicy → Bool → PolicyDecision
apply_rule automatic action policy in_scope = record {
  requires_approval = false;
  rule = automatic;
  reason = "Permitted inside the accepted task and assigned worktree.";
}
apply_rule approval_required action policy in_scope = record {
  requires_approval = true;
  rule = approval_required;
  reason = "Policy requires an explicit decision for this action.";
}
apply_rule automatic_if_in_scope action policy in_scope =
    if in_scope
    then record {
      requires_approval = false;
      rule = automatic_if_in_scope;
      reason = "Explicitly included in the accepted task scope.";
    }
    else record {
      requires_approval = true;
      rule = automatic_if_in_scope;
      reason = "Not included in the accepted scope; requesting approval.";
    }
apply_rule standing_authorization action policy in_scope =
    if is_standing policy action
    then record {
      requires_approval = false;
      rule = standing_authorization;
      reason = "Covered by configured standing authorization for this project.";
    }
    else record {
      requires_approval = true;
      rule = standing_authorization;
      reason = "No standing authorization configured for this project yet.";
    }

unfoldable pub evaluate : Action → Option ProjectApprovalPolicy → Bool → PolicyDecision
unfolding apply_rule
evaluate action policy in_scope = apply_rule (rule_for policy action) action policy in_scope

pub record ApprovalBinding : Type 0 where
  pub action : Action
  pub target : String
  pub revision : String
  pub config_version : String

unfoldable pub binding_matches : ApprovalBinding → ApprovalBinding → Bool
binding_matches granted current =
    action_eq granted.action current.action
    && str_eq granted.target current.target
    && str_eq granted.revision current.revision
    && str_eq granted.config_version current.config_version

-- A line of `describeStaleness`: the field that drifted, its granted and its current value.
pub data Drift : Type 0 where
  action_drift : Action → Action → Drift
  target_drift revision_drift config_drift : String → String → Drift

unfoldable pub describe_staleness : ApprovalBinding → ApprovalBinding → List Drift
describe_staleness granted current =
    when (not (action_eq granted.action current.action))
      (action_drift granted.action current.action)
    ++ when (not (str_eq granted.target current.target))
        (target_drift granted.target current.target)
    ++ when (not (str_eq granted.revision current.revision))
        (revision_drift granted.revision current.revision)
    ++ when (not (str_eq granted.config_version current.config_version))
        (config_drift granted.config_version current.config_version)
