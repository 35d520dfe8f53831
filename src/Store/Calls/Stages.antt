-- ===== src/Store/Calls/Stages.antt =====
-- src/store/records.ts: the rows of `stage_runs` through any sequence of calls.
use multi_agent_build_system.Prelude.{
  String, ◌≡◌, refl, ap, ◌∙◌, subst, ◌≢◌, ◌⊎◌, inl, inr, true, false, none, some, List, arith,
}
use multi_agent_build_system.Store.{StageRun, Db, stage_key}
use multi_agent_build_system.Store.Table.{lookup}
use multi_agent_build_system.Store.Table.Tracked.{
  Tracked, Tracked-same, Tracked-join, Tracked-update, Tracked-insert,
}
use multi_agent_build_system.Store.Approvals.{invalidate_all}
use multi_agent_build_system.Store.Stages.{
  get_stage, new_stage, is_launchable, is_unfinished, launched, finished_stage, bound,
}
use multi_agent_build_system.Store.Leases.{is_reserved_stage, launching_stage}
use multi_agent_build_system.Store.Calls.{Call, run}
use multi_agent_build_system.Store.Calls.Effect.{
  Effect, stays, writes_tasks, opens, reserves, recovers, launches, finishes, collects, binds,
  admits, activates, releases, requests, decides, consumes, invalidates, run_stable,
}

-- Of a finished stage a gate may still be bound, where none is; the rest of the row stays.
abbrev pub Frozen : StageRun → StageRun → Type 0
Frozen s s' = (s' ≡ record s { gate_id = s'.gate_id }) × ((s.gate_id ≡ none) ⊎ (s' ≡ s))

-- The later row of a stage: what was reserved stays, and so does a finished stage.
abbrev pub StageKeeps : StageRun → StageRun → Type 0
StageKeeps s s' =
    (s'.fencing_token ≡ s.fencing_token)
    × (s'.launch_key ≡ s.launch_key)
    × (s'.episode_id ≡ s.episode_id)
    × (s'.ordinal ≡ s.ordinal)
    × (is_unfinished s.state ≡ false → Frozen s s')

StageKeeps-same : (s : StageRun) → StageKeeps s s
StageKeeps-same s = (refl, refl, refl, refl, λ h. (refl, inr refl))

-- A finished stage is finished still.
Frozen-join :
    (s t u : StageRun)
    → is_unfinished s.state ≡ false
    → Frozen s t
    → (is_unfinished t.state ≡ false → Frozen t u)
    → Frozen s u
Frozen-join s t u over (row, handle) next =
    let state : t.state ≡ s.state = ap (λ x. x.state) row in
    let (row', handle') = next (rw state over) in
    (
      row' ∙ ap {A = StageRun} {B = StageRun} (λ x. record x { gate_id = u.gate_id }) row,
      elim handle [
        | inl free ↦ inl free
        | inr same ↦ subst (λ x. (x.gate_id ≡ none) ⊎ (u ≡ x)) same handle'
      ],
    )

StageKeeps-join : (s t u : StageRun) → StageKeeps s t → StageKeeps t u → StageKeeps s u
StageKeeps-join s t u (a, b, c, d, frozen) (a', b', c', d', frozen') =
    (a' ∙ a, b' ∙ b, c' ∙ c, d' ∙ d, λ h. Frozen-join s t u h (frozen h) frozen')

unfinished : (s : StageRun) → is_unfinished s.state ≡ true → is_unfinished s.state ≢ false
unfinished s h = ground arith

launchable : (s : StageRun) → is_launchable s.state ≡ true → is_unfinished s.state ≢ false
launchable s h = ground arith

reserved_stage : (s : StageRun) → is_reserved_stage s.state ≡ true → is_unfinished s.state ≢ false
reserved_stage s h = ground arith

pub found_stage :
    (id : String) (d : Db) {s t : StageRun}
    → get_stage id d ≡ some s
    → lookup stage_key id d.stages ≡ some t
    → s ≡ t
unfolding get_stage
found_stage id d p q = cc

abbrev StagesKept : Db → Db → Type 0
StagesKept d d' = Tracked stage_key StageKeeps d.stages d'.stages

same_stages : (d : Db) → StagesKept d d
same_stages d = Tracked-same stage_key StageKeeps StageKeeps-same d.stages

step-StagesKept : (u : String → Type 0) (d d' : Db) → Effect u d d' → StagesKept d d'
unfolding invalidate_all
step-StagesKept u d d' stays = same_stages d
step-StagesKept u d d' (writes_tasks ts es) = same_stages d
step-StagesKept u d d' (opens id t repairs recoveries ts es single fresh) = same_stages d
step-StagesKept u d d' (reserves id token r e ts es at budget) =
    Tracked-insert stage_key StageKeeps StageKeeps-same (new_stage id token r) d.stages
step-StagesKept u d d' (recovers id e es at room) = same_stages d
step-StagesKept u d d' (launches id attempt gate s ts es at mine live) =
    Tracked-update stage_key StageKeeps StageKeeps-same id (launched attempt gate) d.stages
      (λ t. refl)
      (λ t found.
        let same : s ≡ t = found_stage id d at found in
        (refl, refl, refl, refl, λ over. absurd (launchable s live (rw same over))))
step-StagesKept u d d' (finishes id o s ts es at mine live) =
    Tracked-update stage_key StageKeeps StageKeeps-same id (finished_stage o) d.stages (λ t. refl)
      (λ t found.
        let same : s ≡ t = found_stage id d at found in
        (refl, refl, refl, refl, λ over. absurd (unfinished s live (rw same over))))
step-StagesKept u d d' (collects gs es) = same_stages d
step-StagesKept u d d' (binds id gate s gs es at free) =
    Tracked-update stage_key StageKeeps StageKeeps-same id (bound gate) d.stages (λ t. refl)
      (λ t found.
        let same : s ≡ t = found_stage id d at found in
        (refl, refl, refl, refl, λ over. (refl, inl (rw (← same) free))))
step-StagesKept u d d' (admits id token project r es free) = same_stages d
step-StagesKept u d d' (activates id l s ts es held live at waits) =
    Tracked-update stage_key StageKeeps StageKeeps-same l.stage_run_id launching_stage d.stages
      (λ t. refl)
      (λ t found.
        let same : s ≡ t = found_stage l.stage_run_id d at found in
        (refl, refl, refl, refl, λ over. absurd (reserved_stage s waits (rw same over))))
step-StagesKept u d d' (releases id l es held live) = same_stages d
step-StagesKept u d d' (requests a es waits) = same_stages d
step-StagesKept u d d' (decides a to e at waits) = same_stages d
step-StagesKept u d d' (consumes id a e at granted) = same_stages d
step-StagesKept u d d' (invalidates test) = same_stages d

-- Through any sequence of calls a stage run keeps its row, its fencing token, its launch key, its
-- episode and its ordinal. A stage that succeeded, failed or was cancelled keeps the rest of its row too,
-- but that a gate result may still be bound to it where it has none.
pub run-StageKeeps :
    (calls : List Call) (id : String) (d : Db) {s : StageRun}
    → get_stage id d ≡ some s
    → (s' : StageRun) × (get_stage id (run calls d) ≡ some s') × StageKeeps s s'
unfolding get_stage
run-StageKeeps calls id d {s} found =
    run_stable (StagesKept d)
      (λ u e e' step h.
        Tracked-join stage_key StageKeeps StageKeeps-join _ _ _ h (step-StagesKept u e e' step))
      calls d (same_stages d) id s found
