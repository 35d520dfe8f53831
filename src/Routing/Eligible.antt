-- ===== src/Routing/Eligible.antt =====
-- src/routing/capabilities.ts: when a launch is permitted.
use multi_agent_build_system.Prelude.{
  ℕ, String, ◌≡◌, subst, ◌↔◌, inl, inr, true, some, arith, str_eq_iff, Option-cases, or_default,
  is_empty, includes,
}
use multi_agent_build_system.Routing.{
  verified_entitlement, enforced, RouteCapability, CapabilityRegistry, CapabilityRequest,
  find_capability, request_reasons, effort_reasons, auth_reasons, capability_reasons,
  evaluate_capability,
}

-- A launch that names what an entry of the registry permits.
pub record IsPermitted (registry : CapabilityRegistry) (r : CapabilityRequest) : Type 0 where
  pub capability : RouteCapability
  pub model : String
  pub effort : String
  pub registered : find_capability registry r.provider r.model ≡ some capability
  pub names_model : r.model ≡ some model
  pub names_effort : r.effort ≡ some effort
  pub entitled : capability.entitlement ≡ verified_entitlement
  pub supported : includes capability.efforts effort ≡ true
  pub permitted :
      (mode : String) → r.auth_mode ≡ some mode → includes capability.auth_modes mode ≡ true
  pub disabled : or_default r.delegation "disabled" ≡ "disabled"
  pub controlled : capability.delegation_control ≡ enforced

no_reason :
    (r : CapabilityRequest) (c : RouteCapability) (effort : String)
    → r.effort ≡ some effort
    → is_empty (capability_reasons r (some c)) ≡ true
    → (c.entitlement ≡ verified_entitlement)
      × (includes c.efforts effort ≡ true)
      × (is_empty (auth_reasons c r.auth_mode) ≡ true)
      × (or_default r.delegation "disabled" ≡ "disabled")
      × (c.delegation_control ≡ enforced)
unfolding capability_reasons effort_reasons
no_reason r c effort named h =
    ground (arith, str_eq_iff (or_default r.delegation "disabled") "disabled")

auth_permitted :
    (c : RouteCapability) (mode : String)
    → is_empty (auth_reasons c (some mode)) ≡ true
    → includes c.auth_modes mode ≡ true
unfolding auth_reasons
auth_permitted c mode h = ground arith

eligible-parts :
    (registry : CapabilityRegistry) (r : CapabilityRequest) (now : ℕ)
    → (evaluate_capability registry r now).1.eligible ≡ true
    → (c : RouteCapability) × (find_capability registry r.provider r.model ≡ some c)
      × ((m : String) × (r.model ≡ some m))
      × ((e : String) × (r.effort ≡ some e))
      × (is_empty (capability_reasons r (some c)) ≡ true)
unfolding evaluate_capability request_reasons
eligible-parts registry r now h =
    elim (Option-cases (find_capability registry r.provider r.model)) [
      | inl missing ↦ absurd (ground arith)
      | inr (c, found) ↦ elim (Option-cases r.model) [
        | inl missing ↦ absurd (ground arith)
        | inr (m, model_is) ↦ elim (Option-cases r.effort) [
          | inl missing ↦ absurd (ground arith)
          | inr (e, effort_is) ↦ (c, found, (m, model_is), (e, effort_is), ground arith)
        ]
      ]
    ]

permitted-reasons :
    (r : CapabilityRequest) (c : RouteCapability) (effort : String)
    → r.effort ≡ some effort
    → c.entitlement ≡ verified_entitlement
    → includes c.efforts effort ≡ true
    → ((mode : String) → r.auth_mode ≡ some mode → includes c.auth_modes mode ≡ true)
    → or_default r.delegation "disabled" ≡ "disabled"
    → c.delegation_control ≡ enforced
    → is_empty (capability_reasons r (some c)) ≡ true
unfolding capability_reasons effort_reasons auth_reasons
permitted-reasons r c effort named entitled supported permitted off controlled =
    elim (Option-cases r.auth_mode) [
      | inl missing ↦ ground (arith, str_eq_iff (or_default r.delegation "disabled") "disabled")
      | inr (mode, at) ↦
          ground
            (arith, permitted mode at, str_eq_iff (or_default r.delegation "disabled") "disabled")
    ]

eligible-IsPermitted :
    (registry : CapabilityRegistry) (r : CapabilityRequest) (now : ℕ)
    → (evaluate_capability registry r now).1.eligible ≡ true
    → IsPermitted registry r
eligible-IsPermitted registry r now h =
    let (c, found, named, mentioned, rest) = eligible-parts registry r now h in
    let (m, model_is) = named in
    let (e, effort_is) = mentioned in
    let (entitled, supported, auth, off, controlled) = no_reason r c e effort_is rest in
    record {
      capability = c;
      model = m;
      effort = e;
      registered = found;
      names_model = model_is;
      names_effort = effort_is;
      entitled = entitled;
      supported = supported;
      permitted = λ mode at.
          auth_permitted c mode (subst (λ x. is_empty (auth_reasons c x) ≡ true) at auth);
      disabled = off;
      controlled = controlled;
    }

IsPermitted-eligible :
    (registry : CapabilityRegistry) (r : CapabilityRequest) (now : ℕ)
    → IsPermitted registry r
    → (evaluate_capability registry r now).1.eligible ≡ true
unfolding evaluate_capability request_reasons
IsPermitted-eligible registry r now h = ground (
  arith,
  h.registered,
  h.names_model,
  h.names_effort,
  permitted-reasons r h.capability h.effort h.names_effort h.entitled h.supported h.permitted
      h.disabled h.controlled,
)

-- A launch is eligible exactly when it names a model and an effort, the registry has an entry for the
-- provider and the model whose entitlement is verified, that supports the effort, permits the
-- authentication mode if one is named and can switch delegation off, and the request leaves it off.
pub eligible_iff :
    (registry : CapabilityRegistry) (r : CapabilityRequest) (now : ℕ)
    → ((evaluate_capability registry r now).1.eligible ≡ true) ↔ IsPermitted registry r
eligible_iff registry r now =
    (eligible-IsPermitted registry r now, IsPermitted-eligible registry r now)
