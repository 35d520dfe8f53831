-- ===== src/Failure.antt =====
-- src/core/failure.ts: the labels of a failure and the layer that answers for it.
pub mod Patterns
pub mod Classify
pub mod Diagnose
pub mod Evidence
use multi_agent_build_system.Prelude.{String, Bool, true, false}

pub data FailureClass : Type 0 where
  code auth quota infra config contract cancelled timeout : FailureClass

pub data FailureCategory : Type 0 where
  provider_capacity provider_auth environment host_runtime controller worker_contract product_code
        requirement unknown :
      FailureCategory

unfoldable pub consumes_repair_budget : FailureClass → Bool
consumes_repair_budget code = true
consumes_repair_budget _ = false

unfoldable pub is_provider_unavailable : FailureClass → Bool
is_provider_unavailable quota = true
is_provider_unavailable auth = true
is_provider_unavailable _ = false

unfoldable pub category_consumes_code_repair : FailureCategory → Bool
category_consumes_code_repair product_code = true
category_consumes_code_repair _ = false

unfoldable pub category_is_provider_unavailable : FailureCategory → Bool
category_is_provider_unavailable provider_capacity = true
category_is_provider_unavailable provider_auth = true
category_is_provider_unavailable _ = false

-- `LEGACY_CATEGORY`
unfoldable pub category_for_failure_class : FailureClass → FailureCategory
category_for_failure_class code = product_code
category_for_failure_class auth = provider_auth
category_for_failure_class quota = provider_capacity
category_for_failure_class infra = host_runtime
category_for_failure_class config = environment
category_for_failure_class contract = worker_contract
category_for_failure_class cancelled = controller
category_for_failure_class timeout = host_runtime

-- `inverse`
unfoldable pub failure_class_for_category : FailureCategory → FailureClass
failure_class_for_category provider_capacity = quota
failure_class_for_category provider_auth = auth
failure_class_for_category environment = config
failure_class_for_category host_runtime = infra
failure_class_for_category controller = infra
failure_class_for_category worker_contract = contract
failure_class_for_category product_code = code
failure_class_for_category requirement = contract
failure_class_for_category unknown = infra

unfoldable pub recovery_action_for : FailureCategory → String
recovery_action_for provider_capacity =
    "Record the capacity limit with its evidenced reset when available, then wait for capacity or reroute to an eligible subscription provider."
recovery_action_for provider_auth =
    "Mark the provider unavailable until the operator repairs its login, then retry the same stage."
recovery_action_for environment =
    "Resolve readiness through the authorized setup plan or the controller-owned check runner, then rerun the affected stage. Do not widen worker permissions."
recovery_action_for host_runtime =
    "Resolve the host condition (network, disk, memory, or timeout budget), then retry the same stage."
recovery_action_for controller =
    "Reconcile controller state from durable records before scheduling any new work."
recovery_action_for worker_contract =
    "Reissue the stage with a corrected contract; the produced work is not accepted as-is."
recovery_action_for product_code =
    "Carry the findings into a repair attempt bound to this revision."
recovery_action_for requirement =
    "Ask the user the recorded decision question; no agent may assume the answer."
recovery_action_for unknown =
    "Preserve the evidence and require an explicit operator decision; an unexplained failure is not a proven defect."
