-- ===== src/Examples/Ledgers.antt =====
-- The ledger of obligations at concrete inputs: a defect that is addressed, restated and resolved, a decision,
-- and calls that are refused.
use multi_agent_build_system.Prelude.{
  String, ◌≡◌, refl, true, none, some, List, [], ◌∷◌, map, All, is_blank, unique_beside,
}
use multi_agent_build_system.Store.Table.{lookup, update}
use multi_agent_build_system.Obligations.{
  code_defect, decision_needed, opened, TaskObligation, Ledger, get_obligation, ObligationInput,
  record_obligation, reopen_obligation, address, resolve, resolve_obligation, decide_obligation,
}
use multi_agent_build_system.Obligations.Calls.{
  ObligationCall, call_record, call_reopen, call_resolve, call_decide, act, act_all,
}
use multi_agent_build_system.Obligations.Keeps.{
  ObligationKeeps, act_all-ObligationKeeps, HasEvidence, act_all-HasEvidence,
}
use multi_agent_build_system.Obligations.Tracker.{Status, over, status_of}
use multi_agent_build_system.Examples.Rows.{database}

abbrev defect : TaskObligation
defect = record {
  id = "obligation-1";
  task_id = "task-1";
  kind = code_defect;
  severity = "high";
  blocking = true;
  source_review_id = none;
  source_gate_id = none;
  source_decision_id = none;
  source_key = "finding:1";
  state = opened;
  summary = "the test fails";
  introduced_revision = none;
  resolved_revision = none;
  evidence_refs = "review-1" ∷ [];
  resolution_evidence = [];
  clarification_id = none;
}

abbrev ledger : Ledger
ledger = record {
  db = database;
  obligations = defect ∷ [];
  events = [];
  review_ids = [];
  decision_ids = [];
  clarification_ids = [];
}

abbrev question : ObligationInput
question = record {
  task_id = "task-1";
  kind = decision_needed;
  severity = "medium";
  blocking = true;
  source_key = "question:1";
  summary = "which port?";
  source_review_id = none;
  source_gate_id = none;
  source_decision_id = none;
  introduced_revision = none;
  evidence_refs = none;
  clarification_id = none;
}

abbrev obligation_calls : List ObligationCall
obligation_calls =
    call_resolve "obligation-1" address none []
    ∷ call_resolve "obligation-1" resolve none []
    ∷ call_reopen "obligation-1" ("review-2" ∷ [])
    ∷ call_record "obligation-2" question
    ∷ call_record "obligation-3" question
    ∷ call_decide "event-1" "obligation-2" "8080" "operator"
    ∷ call_decide "event-2" "obligation-1" "no" "operator"
    ∷ call_resolve "obligation-1" resolve (some "abc124") ("gate-1" ∷ [])
    ∷ call_reopen "obligation-1" ("review-3" ∷ [])
    ∷ []

statuses_afterwards :
    map {B = String × Status}
      (λ (o : TaskObligation). (o.id, status_of o.state))
      (act_all obligation_calls ledger).obligations
    ≡ ("obligation-1", over) ∷ ("obligation-2", over) ∷ []
unfolding act_all act record_obligation reopen_obligation resolve_obligation decide_obligation
    lookup update unique_beside is_blank
statuses_afterwards = refl

act_all-ObligationKeeps_example :
    (o' : TaskObligation) × (get_obligation "obligation-1" (act_all obligation_calls ledger)
      ≡ some o')
    × ObligationKeeps defect o'
unfolding get_obligation lookup
act_all-ObligationKeeps_example =
    act_all-ObligationKeeps obligation_calls "obligation-1" ledger {o = defect} refl

act_all-HasEvidence_example : All HasEvidence (act_all obligation_calls ledger).obligations
act_all-HasEvidence_example = act_all-HasEvidence obligation_calls ledger ((λ e. cc), tt)
