-- ===== src/Store/Stages/Gates.antt =====
-- src/store/records.ts: `recordGate`.
use multi_agent_build_system.Prelude.{
  String, Bool, ◌&&◌, ◌||◌, not, Option, none, some, ◌∷◌, map, str_eq, if◌then◌else◌, is_some,
  or_default, any, find, option_eq, includes, Outcome, ok, throw, ◌>>◌, throw_if,
}
use multi_agent_build_system.Store.{
  StageRun, gate_result, GateResult, Db, StoreError, different_evidence, gate_unbound,
  constraint_violation, stage_key, gate_key,
}
use multi_agent_build_system.Store.Table.{update, insert}
use multi_agent_build_system.Store.Tasks.{get_task}
use multi_agent_build_system.Store.Stages.Episodes.{get_stage}

-- The stage that a result names; the empty text names none.
abbrev pub gate_stage : GateResult → Option String
gate_stage g = elim g.stage_run_id [ none ↦ none | some s ↦ if str_eq s "" then none else some s ]

abbrev pub same_evidence : GateResult → GateResult → Bool
same_evidence g h =
    str_eq g.task_id h.task_id
    && str_eq g.revision h.revision
    && str_eq g.name h.name
    && option_eq g.input_fingerprint h.input_fingerprint

-- The result that the stage has already, which is returned where it is the same evidence.
unfoldable pub collected : Option String → Db → Option GateResult
collected none d = none
collected (some s) d = find (λ g. option_eq g.stage_run_id (some s)) d.gates

abbrev pub bound : String → StageRun → StageRun
bound gate s = record s { gate_id = some gate }

-- The keys of `gate_results`: its id, its task, and the unique index on the stage.
unfoldable pub assert_gate : GateResult → Db → Outcome StoreError (Unit {0})
unfolding get_task
assert_gate g d =
    throw_if
      (includes (map gate_key d.gates) g.id
        || not (is_some (get_task g.task_id d))
        || (is_some g.stage_run_id && any (λ h. option_eq h.stage_run_id g.stage_run_id) d.gates))
      constraint_violation

-- `UPDATE stage_runs SET gate_id = ? … WHERE id = ? AND gate_id IS NULL`, which must change one row
unfoldable pub bind_gate : Option String → GateResult → Db → Outcome StoreError Db
unfolding get_stage
bind_gate none g d = ok d
bind_gate (some id) g d = elim (get_stage id d) [
  | none ↦ throw (gate_unbound id g.id)
  | some s ↦
      if is_some s.gate_id
      then throw (gate_unbound id g.id)
      else ok (record d { stages = update stage_key id (bound g.id) d.stages })
]

abbrev pub gate_inserted : GateResult → Db → Db
gate_inserted g d = record d {
  gates = insert g d.gates;
  events = gate_result g.task_id g.id ∷ d.events;
}

unfoldable pub insert_gate : GateResult → Db → Outcome StoreError Db
unfolding assert_gate bind_gate
insert_gate g d = assert_gate g d >> bind_gate (gate_stage g) g (gate_inserted g d)

unfoldable pub record_gate : GateResult → Db → Outcome StoreError Db
unfolding collected insert_gate
record_gate g d = elim (collected (gate_stage g) d) [
  | some h ↦
      if same_evidence h g then ok d else throw (different_evidence (or_default (gate_stage g) ""))
  | none ↦ insert_gate g d
]
