-- ===== src/Scheduling.antt =====
-- src/scheduling/admission.ts and the scopes of src/domain/plan.ts: which work may start beside the
-- work that runs.
pub mod Scope
pub mod Admission
pub mod Concurrency
pub mod Fairness
