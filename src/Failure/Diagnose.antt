-- ===== src/Failure/Diagnose.antt =====
-- src/core/failure.ts: `diagnoseFailure`. The regular expression engine is a parameter.
use multi_agent_build_system.Prelude.{
  ℕ, String, Bool, true, false, ◌&&◌, ◌||◌, not, Option, none, some, List, map, str_eq, ◌==◌,
  if◌then◌else◌, or_default, find, trim, take_text, last_text, split_text,
}
use multi_agent_build_system.Failure.{
  FailureClass, FailureCategory, provider_capacity, provider_auth, environment, host_runtime,
  controller, worker_contract, product_code, requirement, unknown, category_consumes_code_repair,
  recovery_action_for,
}
use multi_agent_build_system.Failure.Patterns.{
  Pattern, matched, quota_patterns, auth_patterns, config_patterns, infra_patterns,
  permission_patterns, tool_missing_patterns, product_code_patterns,
}
use multi_agent_build_system.Failure.Classify.{Envelope, reached_a_model, is_api_error}

pub data Source : Type 0 where
  worker gate review from_controller from_environment from_contract : Source

pub data CauseStatus : Type 0 where
  observed hypothesis confirmed : CauseStatus

pub data Confidence : Type 0 where
  high medium low : Confidence

-- A symptom is a text, or one of the source's templates with the values put into it.
pub data Symptom : Type 0 where
  text : String → Symptom
  needs_decision : Option String → String → Symptom
  readiness_is : String → Symptom
  terminated_by : String → Symptom
  exited : ℕ → Symptom

pub record Decision : Type 0 where
  pub requirement_id : Option String
  pub question : String

pub record Readiness : Type 0 where
  pub state : String
  pub summary : Option String

pub record FailureObservation : Type 0 where
  pub stage : String
  pub source : Source
  pub exit_code : Option ℕ
  pub signal : Option String
  pub timed_out : Bool
  pub output : String
  pub envelope : Option Envelope
  pub readiness : Option Readiness
  pub tool_resolved : Option Bool
  pub requirement_decision : Option Decision
  pub contract_violation : Option String
  pub evidence_ids : List String
  pub legacy_failure_class : Option FailureClass

pub record FailureDiagnosis : Type 0 where
  pub category : FailureCategory
  pub stage : String
  pub symptom : Symptom
  pub cause_status : CauseStatus
  pub confidence : Confidence
  pub evidence_ids : List String
  pub classifier_version : String
  pub recovery_action : String
  pub consumes_code_repair : Bool
  pub legacy_failure_class : Option FailureClass

unfoldable pub first_line : String → String
first_line output =
    take_text 300 (or_default (find (λ l. not (str_eq l "")) (map trim (split_text 10 output))) "")

-- `diagnosis`, over the parts of the observation that it copies
unfoldable pub diagnosis :
    FailureObservation → FailureCategory → Symptom → CauseStatus → Confidence → FailureDiagnosis
diagnosis o category symptom status confidence = record {
  category = category;
  stage = o.stage;
  symptom = symptom;
  cause_status = status;
  confidence = confidence;
  evidence_ids = o.evidence_ids;
  classifier_version = "mabs.failure-diagnosis.v1";
  recovery_action = recovery_action_for category;
  consumes_code_repair = category_consumes_code_repair category;
  legacy_failure_class = o.legacy_failure_class;
}

-- `firstLine(text) || fallback`
unfoldable pub line_or : String → String → Symptom
line_or output fallback =
    let line = first_line output in text (if str_eq line "" then fallback else line)

-- `firstLine(text) || "The stage exited …"`
unfoldable pub line_or_exit : String → ℕ → Symptom
line_or_exit output n =
    let line = first_line output in if str_eq line "" then exited n else text line

abbrev pub is_contract : Source → Bool
is_contract from_contract = true
is_contract _ = false

abbrev pub is_controller : Source → Bool
is_controller from_controller = true
is_controller _ = false

abbrev pub is_gate : Source → Bool
is_gate gate = true
is_gate _ = false

abbrev pub provider_mediated : Source → Bool
provider_mediated worker = true
provider_mediated review = true
provider_mediated _ = false

-- A null or empty text is false as a condition.
abbrev pub truthy : Option String → Bool
truthy none = false
truthy (some s) = not (str_eq s "")

abbrev pub is_no : Option Bool → Bool
is_no (some false) = true
is_no _ = false

abbrev pub is_yes : Option Bool → Bool
is_yes (some true) = true
is_yes _ = false

abbrev pub exits_with : Option ℕ → ℕ → Bool
exits_with none n = false
exits_with (some m) n = m == n

-- The summary that preflight gave, or else the fallback.
abbrev pub summary_or : Option String → Symptom → Symptom
summary_or none fallback = fallback
summary_or (some s) fallback = text s

module _ (regex_test : Pattern → String → Bool) (o : FailureObservation) where
  abbrev pub haystack : String
  haystack = last_text 8000 o.output

  -- Steps 7 and 8: nothing but the envelope, the exit status and the tool's verdict is left.
  unfoldable pub verdict : Option ℕ → FailureDiagnosis
  verdict none =
      diagnosis o unknown (line_or o.output "The process produced no exit status.") hypothesis low
  verdict (some n) =
      if matched regex_test product_code_patterns haystack
      then diagnosis o product_code
          (line_or o.output "A configured check reported a product defect.") observed high
      else diagnosis o unknown (line_or_exit o.output n) hypothesis low

  unfoldable pub harness : Option Envelope → FailureDiagnosis
  unfolding verdict
  harness none = verdict o.exit_code
  harness (some e) =
      if is_api_error e.terminal_reason && not (reached_a_model e)
      then diagnosis o host_runtime
          (text "The harness reported an API error without reaching a model.") observed high
      else verdict o.exit_code

  -- Step 6, from the first registered verdict to the host conditions.
  unfoldable pub prose : FailureDiagnosis
  unfolding harness
  prose =
      if is_gate o.source
        && is_yes o.tool_resolved
        && matched regex_test product_code_patterns haystack
      then diagnosis o product_code
          (line_or o.output "A configured check reported a product defect.") observed high
      else if matched regex_test permission_patterns haystack
      then diagnosis o environment
          (line_or o.output "Running the required command was not permitted.") observed high
      else if matched regex_test tool_missing_patterns haystack
      then diagnosis o environment (line_or o.output "A required executable was not found.")
          observed high
      else if o.timed_out
      then diagnosis o host_runtime (line_or o.output "The command exceeded its timeout budget.")
          observed high
      else if truthy o.signal
      then diagnosis o host_runtime (terminated_by (or_default o.signal "")) observed medium
      else if matched regex_test config_patterns haystack
      then diagnosis o environment (line_or o.output "The command was rejected as misconfigured.")
          observed high
      else if matched regex_test infra_patterns haystack
      then diagnosis o host_runtime
          (line_or o.output "A host or network condition interrupted the command.") observed high
      else harness o.envelope

  -- Step 5: structured exit signals.
  unfoldable pub exits : FailureDiagnosis
  unfolding prose
  exits =
      if is_no o.tool_resolved
      then diagnosis o environment
          (line_or o.output "The command's executable does not resolve in this worktree.") observed
          high
      else if exits_with o.exit_code 126
      then diagnosis o environment
          (line_or o.output "The required command could not be executed here.") observed high
      else if exits_with o.exit_code 127
      then diagnosis o environment (line_or o.output "A required executable was not found.")
          observed high
      else prose

  -- Step 4: a workspace that is not ready.
  unfoldable pub readiness_verdict : Option Readiness → FailureDiagnosis
  unfolding exits
  readiness_verdict none = exits
  readiness_verdict (some r) =
      if str_eq r.state "ready"
      then exits
      else if str_eq r.state "unknown"
      then diagnosis o unknown
          (summary_or r.summary
            (text "Workspace readiness could not be determined for the stage that failed."))
          hypothesis low
      else diagnosis o environment (summary_or r.summary (readiness_is r.state)) observed high

  -- Steps 2 and 3: contract, controller, and the provider's access.
  unfoldable pub access : FailureDiagnosis
  unfolding readiness_verdict
  access =
      if truthy o.contract_violation || is_contract o.source
      then diagnosis o worker_contract
          (summary_or o.contract_violation (line_or o.output "The worker contract was violated."))
          observed high
      else if is_controller o.source
      then diagnosis o controller (line_or o.output "The controller could not complete this stage.")
          observed medium
      else if provider_mediated o.source && matched regex_test quota_patterns haystack
      then diagnosis o provider_capacity
          (line_or o.output "The provider reported a capacity or usage limit.") observed high
      else if provider_mediated o.source && matched regex_test auth_patterns haystack
      then diagnosis o provider_auth
          (line_or o.output "The provider reported an authentication problem.") observed high
      else readiness_verdict o.readiness

  -- Step 1: a recorded human decision outranks every machine signal.
  unfoldable pub decision_first : Option Decision → FailureDiagnosis
  unfolding access
  decision_first none = access
  decision_first (some d) =
      diagnosis o requirement (needs_decision d.requirement_id d.question) observed high

  unfoldable pub diagnose_failure : FailureDiagnosis
  unfolding decision_first line_or line_or_exit
  diagnose_failure = decision_first o.requirement_decision
