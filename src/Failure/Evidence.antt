-- ===== src/Failure/Evidence.antt =====
-- src/core/failure.ts: what a verdict rests on. Only a tool's verdict on the code may charge the repair
-- budget, and the persisted label agrees with the category on both budget questions.
use multi_agent_build_system.Prelude.{
  ℕ, String, ◌≡◌, refl, ap, ◌∙◌, subst, ◌≢◌, ◌↔◌, ◌⊎◌, inl, inr, Bool, true, false, Option, none,
  some, arith, last_text,
}
use multi_agent_build_system.Failure.{
  FailureClass, code, infra, timeout, FailureCategory, product_code, consumes_repair_budget,
  is_provider_unavailable, category_consumes_code_repair, category_is_provider_unavailable,
  category_for_failure_class, failure_class_for_category,
}
use multi_agent_build_system.Failure.Patterns.{
  Pattern, matched, quota_patterns, auth_patterns, config_patterns, environment_patterns,
  infra_patterns, product_code_patterns,
}
use multi_agent_build_system.Failure.Classify.{
  Envelope, reached_a_model, is_api_error, is_environment_failure, classify_failure,
  classify_from_envelope,
}
use multi_agent_build_system.Failure.Diagnose.{
  from_controller, from_contract, Decision, Readiness, FailureObservation, FailureDiagnosis,
  diagnosis, verdict, harness, prose, exits, readiness_verdict, access, decision_first,
  diagnose_failure,
}

module _ (regex_test : Pattern → String → Bool) where
  -- The repair budget is charged only where product evidence matches, no person's decision is pending, no
  -- contract violation or controller fault explains the failure, the tool is not known to be
  -- missing, and the exit status is neither 126 nor 127.
  pub record IsProductFault (o : FailureObservation) : Type 0 where
    pub evidence : matched regex_test product_code_patterns (last_text 8000 o.output) ≡ true
    pub no_decision : o.requirement_decision ≡ none
    pub no_contract : o.source ≢ from_contract
    pub no_controller : o.source ≢ from_controller
    pub tool_not_missing : o.tool_resolved ≢ some false
    pub executable : (o.exit_code ≢ some 126) × (o.exit_code ≢ some 127)

  -- What every later step of the diagnosis says of a verdict that charges a repair.
  abbrev Grounded : FailureObservation → FailureDiagnosis → Type 0
  Grounded o d =
      d.consumes_code_repair ≡ true
      → (d.category ≡ product_code)
        × (matched regex_test product_code_patterns (last_text 8000 o.output) ≡ true)

  verdict-Grounded :
      (o : FailureObservation) (exit : Option ℕ) → Grounded o (verdict regex_test o exit)
  unfolding verdict diagnosis category_consumes_code_repair
  verdict-Grounded o none h = cc
  verdict-Grounded o (some n) h = ground arith

  harness-Grounded :
      (o : FailureObservation) (e : Option Envelope) → Grounded o (harness regex_test o e)
  unfolding harness diagnosis category_consumes_code_repair
  harness-Grounded o none h = verdict-Grounded o o.exit_code h
  harness-Grounded o (some e) h = ground (arith, verdict-Grounded o o.exit_code)

  prose-Grounded : (o : FailureObservation) → Grounded o (prose regex_test o)
  unfolding prose diagnosis category_consumes_code_repair
  prose-Grounded o h = ground (arith, harness-Grounded o o.envelope)

  exits-Grounded :
      (o : FailureObservation)
      → (exits regex_test o).consumes_code_repair ≡ true
      → ((exits regex_test o).category ≡ product_code)
        × (matched regex_test product_code_patterns (last_text 8000 o.output) ≡ true)
        × (o.tool_resolved ≢ some false)
        × (o.exit_code ≢ some 126)
        × (o.exit_code ≢ some 127)
  unfolding exits diagnosis category_consumes_code_repair
  exits-Grounded o h = ground (arith, prose-Grounded o)

  readiness-Grounded :
      (o : FailureObservation) (r : Option Readiness)
      → (readiness_verdict regex_test o r).consumes_code_repair ≡ true
      → (readiness_verdict regex_test o r ≡ exits regex_test o)
  unfolding readiness_verdict diagnosis category_consumes_code_repair
  readiness-Grounded o none h = refl
  readiness-Grounded o (some r) h = ground arith

  access-Grounded :
      (o : FailureObservation)
      → (access regex_test o).consumes_code_repair ≡ true
      → (access regex_test o ≡ exits regex_test o)
        × (o.source ≢ from_contract)
        × (o.source ≢ from_controller)
  unfolding access diagnosis category_consumes_code_repair
  access-Grounded o h = ground (arith, readiness-Grounded o o.readiness)

  -- A diagnosis that charges a code repair has the category `product_code` and rests on product evidence:
  -- the product patterns match the end of the output, no decision is recorded, the source is neither
  -- the contract nor the controller, the tool is not known to be missing and the exit status is neither 126 nor 127.
  pub code_repair_evidence :
      (o : FailureObservation)
      → (diagnose_failure regex_test o).consumes_code_repair ≡ true
      → ((diagnose_failure regex_test o).category ≡ product_code) × IsProductFault o
  unfolding diagnose_failure diagnosis category_consumes_code_repair
  code_repair_evidence o h = by_decision o.requirement_decision refl h
    where
      by_decision :
          (d : Option Decision)
          → o.requirement_decision ≡ d
          → (decision_first regex_test o d).consumes_code_repair ≡ true
          → ((decision_first regex_test o d).category ≡ product_code) × IsProductFault o
      by_decision (some d) e k = cc
      by_decision none e k =
          let (same, not_contract, not_controller) = access-Grounded o k in
          let (product, matches, resolved, not_126, not_127) =
            exits-Grounded o (subst (λ d. d.consumes_code_repair ≡ true) same k) in
          (
            ap (λ d. d.category) same ∙ product,
            record {
              evidence = matches;
              no_decision = e;
              no_contract = not_contract;
              no_controller = not_controller;
              tool_not_missing = resolved;
              executable = (not_126, not_127);
            },
          )

  -- Text is classified as a coding mistake exactly when no quota, authentication, configuration, environment or
  -- infrastructure pattern matches its last 8000 characters and the process ended with an exit
  -- status other than 126 and 127.
  pub classify_failure-eq-code_iff :
      (output : String) (exit : Option ℕ)
      → (classify_failure regex_test output exit ≡ code) ↔ (
          let end = last_text 8000 output in
          (matched regex_test quota_patterns end ≡ false)
          × (matched regex_test auth_patterns end ≡ false)
          × (matched regex_test config_patterns end ≡ false)
          × (matched regex_test environment_patterns end ≡ false)
          × (matched regex_test infra_patterns end ≡ false)
          × (n : ℕ) × (exit ≡ some n)
          × (n ≢ 126)
          × (n ≢ 127))
  unfolding classify_failure is_environment_failure
  classify_failure-eq-code_iff output none = ground arith
  classify_failure-eq-code_iff output (some n) = (
    λ h. (
      ground arith,
      ground arith,
      ground arith,
      ground arith,
      ground arith,
      n,
      refl,
      ground arith,
      ground arith,
    ),
    λ h. ground arith,
  )

module _ (regex_test : Pattern → String → Bool) where
  classify_from_envelope-cases :
      (e : Envelope) (output : String) (exit : Option ℕ)
      → (classify_from_envelope regex_test e output exit ≡ classify_failure regex_test output exit)
        ⊎ ((classify_failure regex_test output exit ≡ code)
            × (classify_from_envelope regex_test e output exit ≡ infra)
            × (is_api_error e.terminal_reason ≡ true)
            × (reached_a_model e ≡ false))
  unfolding classify_from_envelope
  classify_from_envelope-cases e output exit = ground arith

  -- The envelope of the harness overrules the text only to take a verdict of a coding mistake away: then
  -- the text said `code`, the harness reported an API error, no model was reached, and the verdict is
  -- `infra`. No envelope makes a coding mistake of anything else.
  pub envelope_spares_code :
      (e : Envelope) (output : String) (exit : Option ℕ)
      → ((classify_from_envelope regex_test e output exit ≢ classify_failure regex_test output exit)
          → (classify_failure regex_test output exit ≡ code)
            × (classify_from_envelope regex_test e output exit ≡ infra)
            × (is_api_error e.terminal_reason ≡ true)
            × (reached_a_model e ≡ false))
        × ((classify_from_envelope regex_test e output exit ≡ code)
            → classify_failure regex_test output exit ≡ code)
  envelope_spares_code e output exit = (
    λ differs. elim (classify_from_envelope-cases e output exit) [
      | inl same ↦ absurd (differs same)
      | inr changed ↦ changed
    ],
    λ h. ground (arith, classify_from_envelope-cases e output exit),
  )

-- The label that the controller persists and the category of the diagnosis agree on both questions of the
-- budget policy, in both directions, and a label comes back from its category unless it is
-- `cancelled` or `timeout`, which come back as `infra`.
pub labels_agree :
    (c : FailureClass) (k : FailureCategory)
    → (category_consumes_code_repair (category_for_failure_class c) ≡ consumes_repair_budget c)
      × (category_is_provider_unavailable (category_for_failure_class c)
          ≡ is_provider_unavailable c)
      × (consumes_repair_budget (failure_class_for_category k) ≡ category_consumes_code_repair k)
      × (is_provider_unavailable (failure_class_for_category k)
          ≡ category_is_provider_unavailable k)
      × ((failure_class_for_category (category_for_failure_class c) ≡ c)
          ⊎ ((failure_class_for_category (category_for_failure_class c) ≡ infra)
              × ((c ≡ FailureClass.cancelled) ⊎ (c ≡ timeout))))
unfolding category_consumes_code_repair category_is_provider_unavailable consumes_repair_budget
    is_provider_unavailable failure_class_for_category category_for_failure_class
labels_agree c k = ground arith
