-- ===== src/Policy/Decisions.antt =====
-- src/domain/policy.ts: when an action runs without an approval, and when an approval is stale.
use multi_agent_build_system.Prelude.{
  ◌≡◌, ap, ◌↔◌, ◌⊎◌, Bool, true, false, ◌&&◌, not, Option, none, some, [], ◌++◌, arith, str_eq,
  str_eq_iff, when,
}
use multi_agent_build_system.Policy.{
  Action, push_branch, open_pull_request, automatic, automatic_if_in_scope, standing_authorization,
  action_eq, action_eq_iff, ProjectApprovalPolicy, default_policy, is_consequential, is_standing,
  rule_for, evaluate, ApprovalBinding, binding_matches, describe_staleness,
}

-- An action needs no approval exactly when its rule is `automatic`, or is `automatic_if_in_scope` for an action
-- in scope, or is `standing_authorization` for an action among the project's standing ones.
pub no_approval_iff :
    (a : Action) (policy : Option ProjectApprovalPolicy) (in_scope : Bool)
    → ((evaluate a policy in_scope).requires_approval ≡ false) ↔ (
        (rule_for policy a ≡ automatic)
        ⊎ ((rule_for policy a ≡ automatic_if_in_scope) × (in_scope ≡ true))
        ⊎ ((rule_for policy a ≡ standing_authorization) × (is_standing policy a ≡ true)))
unfolding evaluate
no_approval_iff a policy in_scope = ground arith

-- Under a policy with no overrides, a consequential action runs without an approval only if it is
-- `push_branch` or `open_pull_request` and the project's standing actions name it, whether in scope or not.
pub consequential_needs_approval :
    (a : Action) (p : ProjectApprovalPolicy) (in_scope : Bool)
    → ((b : Action) → p.overrides b ≡ none)
    → is_consequential a ≡ true
    → (evaluate a (some p) in_scope).requires_approval ≡ false
    → ((a ≡ push_branch) ⊎ (a ≡ open_pull_request)) × (is_standing (some p) a ≡ true)
unfolding evaluate is_consequential rule_for default_policy
consequential_needs_approval a p in_scope none_set c h = ground (arith, none_set a)

binding_path :
    (g c : ApprovalBinding)
    → g.action ≡ c.action
    → g.target ≡ c.target
    → g.revision ≡ c.revision
    → g.config_version ≡ c.config_version
    → g ≡ c
binding_path g c a t r v =
    λ i. record { action = a i; target = t i; revision = r i; config_version = v i }

abbrev AllTrue : Bool → Bool → Bool → Bool → Type 0
AllTrue p q r s = (p ≡ true) × (q ≡ true) × (r ≡ true) × (s ≡ true)

four_and : (p q r s : Bool) → ((p && q && r && s) ≡ true) ↔ AllTrue p q r s
four_and p q r s = ground arith

four_when :
    (p q r s : Bool) {A : Type 0} (w x y z : A)
    → ((when (not p) w ++ when (not q) x ++ when (not r) y ++ when (not s) z) ≡ [])
      ↔ AllTrue p q r s
four_when p q r s w x y z = ground arith

-- The four comparisons, as the code makes them, hold exactly for equal bindings.
fields_iff :
    (g c : ApprovalBinding)
    → AllTrue
        (action_eq g.action c.action)
        (str_eq g.target c.target)
        (str_eq g.revision c.revision)
        (str_eq g.config_version c.config_version)
      ↔ (g ≡ c)
fields_iff g c = (
  λ (a, t, r, v).
      binding_path g c ((action_eq_iff _ _).0 a) ((str_eq_iff _ _).0 t) ((str_eq_iff _ _).0 r)
        ((str_eq_iff _ _).0 v),
  λ e. (
    (action_eq_iff _ _).1 (ap (λ b. b.action) e),
    (str_eq_iff _ _).1 (ap (λ b. b.target) e),
    (str_eq_iff _ _).1 (ap (λ b. b.revision) e),
    (str_eq_iff _ _).1 (ap (λ b. b.config_version) e),
  ),
)

-- An approval's binding matches the current one exactly when the two are equal, which is exactly when
-- no drift is described.
pub binding_matches_iff :
    (granted current : ApprovalBinding)
    → ((binding_matches granted current ≡ true) ↔ (granted ≡ current))
      × ((describe_staleness granted current ≡ []) ↔ (granted ≡ current))
unfolding binding_matches describe_staleness
binding_matches_iff g c =
    let ands = four_and _ _ _ _ in
    let whens = four_when _ _ _ _ _ _ _ _ in
    let fields = fields_iff g c in
    (
      (λ h. fields.0 (ands.0 h), λ e. ands.1 (fields.1 e)),
      (λ h. fields.0 (whens.0 h), λ e. whens.1 (fields.1 e)),
    )
