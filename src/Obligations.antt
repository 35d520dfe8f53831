-- ===== src/Obligations.antt =====
-- src/store/records.ts: `recordObligation`, `reopenObligation`, `decideObligation` and `resolveObligation`,
-- with the table of src/store/migrations/015_durable_execution.sql. The ledger is the database with
-- that table; of the reviews, policy decisions and clarifications that a row may point at it has the ids.
-- The times that a row was written are left out.
pub mod Calls
pub mod Keeps
pub mod Tracker
use multi_agent_build_system.Prelude.{
  String, str_append, Bool, true, false, ◌&&◌, ◌||◌, not, Option, none, some, List, [], ◌∷◌, ◌++◌,
  map, str_eq, or_default, is_empty, any, is_blank, includes, unique, Outcome, ok, throw, ◌>>=◌,
  ◌>>◌, throw_if,
}
use multi_agent_build_system.Store.{Db, gate_key}
use multi_agent_build_system.Store.Tasks.{get_task}
use multi_agent_build_system.Store.Table.{lookup, update, insert}

-- `OBLIGATION_KINDS`
pub data ObligationKind : Type 0 where
  code_defect gate_failure requirement_evidence decision_needed advisory : ObligationKind

-- `OBLIGATION_STATES`
pub data ObligationState : Type 0 where
  opened addressed_pending_validation resolved superseded withdrawn : ObligationState

pub record TaskObligation : Type 0 where
  pub id : String
  pub task_id : String
  pub kind : ObligationKind
  pub severity : String
  pub blocking : Bool
  pub source_review_id : Option String
  pub source_gate_id : Option String
  pub source_decision_id : Option String
  pub source_key : String
  pub state : ObligationState
  pub summary : String
  pub introduced_revision : Option String
  pub resolved_revision : Option String
  pub evidence_refs : List String
  pub resolution_evidence : List String
  pub clarification_id : Option String

-- A row of `events`: its kind with what its data holds.
pub data ObligationEvent : Type 0 where
  obligation_recorded : String → ObligationKind → String → Bool → ObligationEvent
  obligation_updated : String → ObligationState → List String → ObligationEvent
  obligation_reopened : String → List String → ObligationEvent
  obligation_decided : String → String → String → ObligationEvent

pub record Ledger : Type 0 where
  pub db : Db
  pub obligations : List TaskObligation
  pub events : List ObligationEvent
  pub review_ids : List String
  pub decision_ids : List String
  pub clarification_ids : List String

pub data ObligationError : Type 0 where
  incomplete : ObligationError
  unknown_task unknown_obligation : String → ObligationError
  no_evidence no_restatement : ObligationError
  not_addressed already_over : String → ObligationState → ObligationError
  not_a_decision : String → ObligationKind → ObligationError
  constraint_violation : ObligationError

abbrev pub obligation_key : TaskObligation → String
obligation_key o = o.id

unfoldable pub get_obligation : String → Ledger → Option TaskObligation
get_obligation id l = lookup obligation_key id l.obligations

abbrev found_or {ℓ} : {A : Type ℓ} → Option A → ObligationError → Outcome ObligationError A
found_or none e = throw e
found_or (some a) e = ok a

-- A reference is null or names a row.
abbrev pub points_into : List String → Option String → Bool
points_into ids none = true
points_into ids (some id) = includes ids id

pub record ObligationInput : Type 0 where
  pub task_id : String
  pub kind : ObligationKind
  pub severity : String
  pub blocking : Bool
  pub source_key : String
  pub summary : String
  pub source_review_id : Option String
  pub source_gate_id : Option String
  pub source_decision_id : Option String
  pub introduced_revision : Option String
  pub evidence_refs : Option (List String)
  pub clarification_id : Option String

abbrev pub new_obligation : String → ObligationInput → TaskObligation
new_obligation id r = record {
  id = id;
  task_id = r.task_id;
  kind = r.kind;
  severity = r.severity;
  blocking = r.blocking;
  source_review_id = r.source_review_id;
  source_gate_id = r.source_gate_id;
  source_decision_id = r.source_decision_id;
  source_key = r.source_key;
  state = opened;
  summary = r.summary;
  introduced_revision = r.introduced_revision;
  resolved_revision = none;
  evidence_refs = or_default r.evidence_refs [];
  resolution_evidence = [];
  clarification_id = r.clarification_id;
}

-- `UNIQUE(task_id, source_key)` and the primary key
abbrev pub obligation_clashes : String → ObligationInput → TaskObligation → Bool
obligation_clashes id r o =
    str_eq o.id id || (str_eq o.task_id r.task_id && str_eq o.source_key r.source_key)

abbrev pub sources_exist : ObligationInput → Ledger → Bool
sources_exist r l =
    points_into l.review_ids r.source_review_id
    && points_into (map gate_key l.db.gates) r.source_gate_id
    && points_into l.decision_ids r.source_decision_id
    && points_into l.clarification_ids r.clarification_id

unfoldable pub record_obligation :
    String → ObligationInput → Ledger → Outcome ObligationError Ledger
unfolding get_task
record_obligation id r l = do
  throw_if (is_blank r.source_key || is_blank r.summary || is_blank r.severity) incomplete
  t ← found_or (get_task r.task_id l.db) (unknown_task r.task_id)
  throw_if (any (obligation_clashes id r) l.obligations || not (sources_exist r l))
      constraint_violation
  ok (record l {
    obligations = insert (new_obligation id r) l.obligations;
    events = obligation_recorded id r.kind r.source_key r.blocking ∷ l.events;
  })

abbrev pub is_addressed : ObligationState → Bool
is_addressed addressed_pending_validation = true
is_addressed _ = false

-- `["open", "addressed_pending_validation"].includes(state)`
abbrev pub is_live : ObligationState → Bool
is_live opened = true
is_live addressed_pending_validation = true
is_live _ = false

abbrev pub is_resolved : ObligationState → Bool
is_resolved resolved = true
is_resolved _ = false

abbrev pub is_decision : ObligationKind → Bool
is_decision decision_needed = true
is_decision _ = false

abbrev pub reopened : List String → TaskObligation → TaskObligation
reopened evidence o = record o {
  state = opened;
  evidence_refs = unique (o.evidence_refs ++ evidence);
}

unfoldable pub reopen_obligation : String → List String → Ledger → Outcome ObligationError Ledger
unfolding get_obligation get_task
reopen_obligation id evidence l = do
  throw_if (is_empty evidence) no_restatement
  o ← found_or (get_obligation id l) (unknown_obligation id)
  throw_if (not (is_addressed o.state)) (not_addressed id o.state)
  t ← found_or (get_task o.task_id l.db) (unknown_task o.task_id)
  ok (record l {
    obligations = update obligation_key id (reopened evidence) l.obligations;
    events = obligation_reopened id evidence ∷ l.events;
  })

-- `Exclude<ObligationState, "open">`
pub data Resolution : Type 0 where
  address resolve supersede withdraw : Resolution

abbrev pub state_of : Resolution → ObligationState
state_of address = addressed_pending_validation
state_of resolve = resolved
state_of supersede = superseded
state_of withdraw = withdrawn

abbrev pub settled : Resolution → Option String → List String → TaskObligation → TaskObligation
settled to revision evidence o = record o {
  state = state_of to;
  resolved_revision = revision;
  resolution_evidence = evidence;
}

unfoldable pub resolve_obligation :
    String → Resolution → Option String → List String → Ledger → Outcome ObligationError Ledger
unfolding get_obligation get_task
resolve_obligation id to revision evidence l = do
  throw_if (is_resolved (state_of to) && is_empty evidence) no_evidence
  o ← found_or (get_obligation id l) (unknown_obligation id)
  throw_if (not (is_live o.state)) (already_over id o.state)
  t ← found_or (get_task o.task_id l.db) (unknown_task o.task_id)
  ok (record l {
    obligations = update obligation_key id (settled to revision evidence) l.obligations;
    events = obligation_updated id (state_of to) evidence ∷ l.events;
  })

-- `decision:${eventId}:${decidedBy}`
abbrev pub decision_evidence : String → String → String
decision_evidence event_id decided_by =
    str_append "decision:" (str_append event_id (str_append ":" decided_by))

unfoldable pub decide_obligation :
    String → String → String → String → Ledger → Outcome ObligationError Ledger
unfolding get_obligation get_task
decide_obligation event_id id answer decided_by l = do
  o ← found_or (get_obligation id l) (unknown_obligation id)
  throw_if (not (is_decision o.kind)) (not_a_decision id o.kind)
  t ← found_or (get_task o.task_id l.db) (unknown_task o.task_id)
  resolve_obligation id resolve t.result_revision (decision_evidence event_id decided_by ∷ [])
      (record l { events = obligation_decided id answer decided_by ∷ l.events })
