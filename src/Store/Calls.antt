-- ===== src/Store/Calls.antt =====
-- src/store/records.ts: any sequence of calls of the operations on tasks, executions, gates, leases and approvals. A call that
-- throws leaves the database as it was, but for a stale approval, which is invalidated first.
pub mod Accepted
pub mod Recorded
pub mod Tasks
pub mod Effect
pub mod Episodes
pub mod Single
pub mod Stages
pub mod Leases
pub mod Approvals
pub mod Stale
pub mod Fenced
use multi_agent_build_system.Prelude.{
  ℕ, String, ◌≡◌, refl, Option, List, [], ◌∷◌, or_default, Outcome, ok, throw,
}
use multi_agent_build_system.Task.{TaskState}
use multi_agent_build_system.Policy.{ApprovalBinding}
use multi_agent_build_system.Store.{GateResult, Db, StoreError}
use multi_agent_build_system.Store.Tasks.{
  TaskField, transition, claim_task, release_claim, retry_task,
}
use multi_agent_build_system.Store.Stages.{
  create_execution_episode, StageRequest, reserve_stage, consume_recovery, record_launch_started,
  StageOutcome, finish_stage, record_gate,
}
use multi_agent_build_system.Store.Leases.{
  AdmissionRequest, reserve_admission, activate_admission, release_admission,
}
use multi_agent_build_system.Store.Approvals.{
  request_approval, Verdict, decide_approval, mark_approval_consumed, invalidate_project_approvals,
  invalidate_approvals,
}

pub data Call : Type 0 where
  call_transition : String → TaskState → List TaskField → Call
  call_claim : String → String → Call
  call_release : String → Call
  call_retry : String → ℕ → Call
  call_create_episode : String → String → ℕ → Option ℕ → Option ℕ → Call
  call_reserve_stage : String → String → StageRequest → Call
  call_consume_recovery : String → String → Call
  call_launch_started : String → String → Option String → Option String → Call
  call_finish_stage : String → String → StageOutcome → Call
  call_record_gate : GateResult → Call
  call_reserve_admission : String → String → AdmissionRequest → Call
  call_activate_admission call_release_admission : String → String → Call
  call_request_approval : String → String → Option String → ApprovalBinding → Call
  call_decide_approval : String → Verdict → Call
  call_consume_approval : String → Call
  call_invalidate_project : String → Call
  call_invalidate : String → Option String → Call

abbrev pub kept : Db → Outcome StoreError Db → Db
kept d (ok d') = d'
kept d (throw e) = d

unfoldable pub perform : Call → Db → Db
perform (call_transition id to fields) d = kept d (transition id to fields d)
perform (call_claim id launch) d = or_default (claim_task id launch d) d
perform (call_release id) d = release_claim id d
perform (call_retry id expected) d = kept d (retry_task id expected d)
perform (call_create_episode id task expected repairs recoveries) d =
    kept d (create_execution_episode id task expected repairs recoveries d)
perform (call_reserve_stage id token r) d = kept d (reserve_stage id token r d)
perform (call_consume_recovery episode stage) d = kept d (consume_recovery episode stage d)
perform (call_launch_started id token attempt gate) d =
    kept d (record_launch_started id token attempt gate d)
perform (call_finish_stage id token o) d = kept d (finish_stage id token o d)
perform (call_record_gate g) d = kept d (record_gate g d)
perform (call_reserve_admission id token r) d = kept d (reserve_admission id token r d)
perform (call_activate_admission id token) d = kept d (activate_admission id token d)
perform (call_release_admission id token) d = kept d (release_admission id token d)
perform (call_request_approval id project task binding) d =
    kept d (request_approval id project task binding d)
perform (call_decide_approval id verdict) d = (decide_approval id verdict d).0
perform (call_consume_approval id) d = kept d (mark_approval_consumed id d)
perform (call_invalidate_project project) d = invalidate_project_approvals project d
perform (call_invalidate task keep_revision) d = invalidate_approvals task keep_revision d

unfoldable pub run : List Call → Db → Db
run [] d = d
run (c ∷ calls) d = run calls (perform c d)

-- What every call keeps, every sequence of calls keeps.
pub run_invariant {ℓ} :
    (P : Db → Type ℓ)
    → ((c : Call) (d : Db) → P d → P (perform c d))
    → (calls : List Call) (d : Db) → P d
    → P (run calls d)
unfolding run
run_invariant P step [] d h = h
run_invariant P step (c ∷ calls) d h = run_invariant P step calls (perform c d) (step c d h)

-- What holds of an operation that is thrown away holds of the state that it leaves.
pub kept-elim {ℓ} :
    (P : Db → Type ℓ) (d : Db) (o : Outcome StoreError Db)
    → P d
    → ((d' : Db) → o ≡ ok d' → P d')
    → P (kept d o)
kept-elim P d (ok d') same step = step d' refl
kept-elim P d (throw e) same step = same
