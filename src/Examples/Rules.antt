-- ===== src/Examples/Rules.antt =====
-- The approval policy and the reading of failures at concrete inputs. The regular expression engine
-- knows the word of one pattern.
use multi_agent_build_system.Prelude.{
  String, ◌≡◌, refl, Bool, true, false, ◌&&◌, none, some, [], ◌∷◌, str_eq, last_text,
}
use multi_agent_build_system.Policy.{push_branch, merge, ProjectApprovalPolicy, ApprovalBinding}
use multi_agent_build_system.Failure.{product_code, category_consumes_code_repair}
use multi_agent_build_system.Failure.Patterns.{Pattern, matched, product_code_patterns}
use multi_agent_build_system.Failure.Classify.{Envelope}
use multi_agent_build_system.Failure.Diagnose.{
  gate, FailureObservation, diagnosis, diagnose_failure,
}
use multi_agent_build_system.Providers.{Providers}
use multi_agent_build_system.Failure.Evidence.{IsProductFault, code_repair_evidence}

abbrev one_word : Pattern → String → Bool
one_word p s = str_eq p.source "AssertionError" && str_eq s "AssertionError"

abbrev failed_check : FailureObservation
failed_check = record {
  stage = "check";
  source = gate;
  exit_code = some 1;
  signal = none;
  timed_out = false;
  output = "AssertionError";
  envelope = none;
  readiness = none;
  tool_resolved = some true;
  requirement_decision = none;
  contract_violation = none;
  evidence_ids = [];
  legacy_failure_class = none;
}

charges : (diagnose_failure one_word failed_check).consumes_code_repair ≡ true
unfolding diagnose_failure matched product_code_patterns last_text diagnosis
    category_consumes_code_repair
charges = refl

code_repair_evidence_example :
    ((diagnose_failure one_word failed_check).category ≡ product_code)
    × IsProductFault one_word failed_check
code_repair_evidence_example = code_repair_evidence one_word failed_check charges

abbrev standing_push : ProjectApprovalPolicy
standing_push = record { overrides = λ a. none; standing = push_branch ∷ [] }

abbrev granted_binding : ApprovalBinding
granted_binding = record {
  action = merge;
  target = "main";
  revision = "abc";
  config_version = "v1";
}

abbrev no_providers : Providers
no_providers = record { rows = []; events = [] }

abbrev api_error : Envelope
api_error = record { terminal_reason = some "api_error"; model_usage = some 0 }
