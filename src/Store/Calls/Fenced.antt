-- ===== src/Store/Calls/Fenced.antt =====
-- src/store/records.ts: fencing. What becomes of a stage while nobody brings its token.
use multi_agent_build_system.Prelude.{String, ◌≡◌, ◌⊎◌}
use multi_agent_build_system.Execution.{StageState}
use multi_agent_build_system.Store.{StageRun}
use multi_agent_build_system.Store.Table.Tracked.{Tracked}
use multi_agent_build_system.Store.Calls.Effect.{Effect}

-- The stage has not been started and not been finished: its row is as it was, but that a gate result may
-- be bound to it, and that a reserved stage may have been admitted to its launch.
abbrev pub Untaken : StageRun → StageRun → Type 0
Untaken s s' =
    (s' ≡ record s { state = s'.state; gate_id = s'.gate_id })
    × ((s'.state ≡ s.state) ⊎ ((s.state ≡ StageState.reserved) × (s'.state ≡ StageState.launching)))

-- The row after a step that does not bring the stage's token.
abbrev Spared : (String → Type 0) → StageRun → StageRun → Type 0
Spared u s s' = (u s.fencing_token → ⊥) → Untaken s s'
