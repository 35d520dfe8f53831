-- ===== src/Routing.antt =====
-- src/routing/capabilities.ts: which launch a registry permits. The registry is an argument; a reason is
-- the kind of its message with the values put into it.
pub mod Eligible
pub mod Routes
pub mod Request
pub mod Select
pub mod Choice
pub mod Allowed
use multi_agent_build_system.Prelude.{
  ℕ, String, Bool, true, false, ◌&&◌, not, Option, none, some, List, [], ◌++◌, str_eq, is_some,
  or_default, is_empty, find, when, option_eq, includes,
}

pub data Entitlement : Type 0 where
  verified_entitlement unknown_entitlement : Entitlement

pub data DelegationControl : Type 0 where
  enforced unenforceable : DelegationControl

pub record RouteCapability : Type 0 where
  pub provider : String
  pub model : String
  pub efforts : List String
  pub auth_modes : List String
  pub quota_domain : String
  pub entitlement : Entitlement
  pub delegation_control : DelegationControl
  pub delegation_observable : Bool
  pub evidence : String

pub record CapabilityRegistry : Type 0 where
  pub version : String
  pub entries : List RouteCapability

-- `delegation` is the mode of the policy; a policy that is left out is the one that disables.
pub record CapabilityRequest : Type 0 where
  pub provider : String
  pub model : Option String
  pub effort : Option String
  pub auth_mode : Option String
  pub delegation : Option String

pub data IneligibleReason : Type 0 where
  no_model no_effort not_registered not_entitled : IneligibleReason
  effort_unsupported auth_mode_not_permitted : String → IneligibleReason
  delegation_not_disabled delegation_not_enforced : IneligibleReason

pub record EligibilityEvidence : Type 0 where
  pub registry_version : String
  pub provider : String
  pub model : Option String
  pub effort : Option String
  pub eligible : Bool
  pub reasons : List IneligibleReason
  pub effort_is_explicit : Bool
  pub quota_domain : Option String
  pub checked_at : ℕ

abbrev pub names_route : String → Option String → RouteCapability → Bool
names_route provider model entry =
    str_eq entry.provider provider && option_eq (some entry.model) model

unfoldable pub find_capability :
    CapabilityRegistry → String → Option String → Option RouteCapability
find_capability registry provider model = find (names_route provider model) registry.entries

abbrev pub is_verified : Entitlement → Bool
is_verified verified_entitlement = true
is_verified unknown_entitlement = false

abbrev pub is_enforced : DelegationControl → Bool
is_enforced enforced = true
is_enforced unenforceable = false

-- The reasons that the request gives by itself.
request_reasons : CapabilityRequest → List IneligibleReason
request_reasons r = when (not (is_some r.model)) no_model ++ when (not (is_some r.effort)) no_effort

effort_reasons : RouteCapability → Option String → List IneligibleReason
effort_reasons c none = []
effort_reasons c (some e) = when (not (includes c.efforts e)) (effort_unsupported e)

auth_reasons : RouteCapability → Option String → List IneligibleReason
auth_reasons c none = []
auth_reasons c (some m) = when (not (includes c.auth_modes m)) (auth_mode_not_permitted m)

unfoldable pub capability_reasons :
    CapabilityRequest → Option RouteCapability → List IneligibleReason
unfolding effort_reasons auth_reasons
capability_reasons r none = when (is_some r.model) not_registered
capability_reasons r (some c) =
    when (not (is_verified c.entitlement)) not_entitled
    ++ effort_reasons c r.effort
    ++ auth_reasons c r.auth_mode
    ++ when (not (str_eq (or_default r.delegation "disabled") "disabled")) delegation_not_disabled
    ++ when (not (is_enforced c.delegation_control)) delegation_not_enforced

abbrev pub quota_domain_of : Option RouteCapability → Option String
quota_domain_of none = none
quota_domain_of (some c) = some c.quota_domain

unfoldable pub evaluate_capability :
    CapabilityRegistry → CapabilityRequest → ℕ → Option RouteCapability × EligibilityEvidence
unfolding find_capability request_reasons capability_reasons
evaluate_capability registry r now =
    let capability = find_capability registry r.provider r.model in
    let reasons = request_reasons r ++ capability_reasons r capability in
    (
      capability,
      record {
        registry_version = registry.version;
        provider = r.provider;
        model = r.model;
        effort = r.effort;
        eligible = is_some capability && is_empty reasons;
        reasons = reasons;
        effort_is_explicit = is_some r.effort;
        quota_domain = quota_domain_of capability;
        checked_at = now;
      },
    )
