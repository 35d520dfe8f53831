-- ===== src/Store/Calls/Recorded.antt =====
-- src/store/records.ts: what a `recordGate` that is accepted has written.
use multi_agent_build_system.Prelude.{
  String, ◌≡◌, ◌⊎◌, inl, inr, Option, none, some, arith, if◌then◌else◌, Option-cases, or_default,
  Outcome, ok, throw, ◌>>◌,
}
use multi_agent_build_system.Store.{
  StageRun, GateResult, Db, StoreError, different_evidence, stage_key,
}
use multi_agent_build_system.Store.Table.{update}
use multi_agent_build_system.Store.Stages.{
  get_stage, gate_stage, same_evidence, collected, bound, assert_gate, bind_gate, gate_inserted,
  insert_gate, record_gate,
}

-- Nothing, the result alone, or the result and the handle of a stage that had none.
abbrev pub Recorded : GateResult → Db → Db → Type 0
Recorded g d d' =
    (d' ≡ d)
    ⊎ (d' ≡ gate_inserted g d)
    ⊎ ((id : String) × (s : StageRun) × (get_stage id d ≡ some s)
        × (s.gate_id ≡ none)
        × (d' ≡ record (gate_inserted g d) { stages = update stage_key id (bound g.id) d.stages }))

bind_gate-Recorded :
    (o : Option String) (g : GateResult) (d : Db) {d' : Db}
    → bind_gate o g (gate_inserted g d) ≡ ok d'
    → Recorded g d d'
unfolding bind_gate get_stage
bind_gate-Recorded none g d h = inr (inl (ground arith))
bind_gate-Recorded (some id) g d {d'} h = elim (Option-cases (get_stage id d)) [
  | inl missing ↦ absurd (ground arith)
  | inr (s, at) ↦ elim (Option-cases s.gate_id) [
    | inl free ↦ inr (inr (id, s, at, free, ground arith))
    | inr (h', taken) ↦ absurd (ground arith)
  ]
]

insert_gate-Recorded :
    (g : GateResult) (d : Db) {d' : Db} → insert_gate g d ≡ ok d' → Recorded g d d'
unfolding insert_gate
insert_gate-Recorded g d {d'} h = go (assert_gate g d) h
  where
    go :
        (o : Outcome StoreError (Unit {0}))
        → (o >> bind_gate (gate_stage g) g (gate_inserted g d)) ≡ ok d'
        → Recorded g d d'
    go (ok tt) e = bind_gate-Recorded (gate_stage g) g d {d' = d'} e
    go (throw x) e = cc

pub record_gate-ok : (g : GateResult) (d : Db) {d' : Db} → record_gate g d ≡ ok d' → Recorded g d d'
unfolding record_gate
record_gate-ok g d {d'} h = go (collected (gate_stage g) d) h
  where
    go :
        (o : Option GateResult)
        → elim o as (λ _. Outcome StoreError Db) [
          | some h' ↦
              if same_evidence h' g
              then ok d
              else throw (different_evidence (or_default (gate_stage g) ""))
          | none ↦ insert_gate g d
        ]
          ≡ ok d'
        → Recorded g d d'
    go none e = insert_gate-Recorded g d {d' = d'} e
    go (some h') e = inl (ground arith)
