-- ===== src/Store/Calls/Episodes.antt =====
-- src/store/records.ts: the episodes of a task through any sequence of calls.
use multi_agent_build_system.Prelude.{◌≤◌, String, ◌≡◌, some, List, arith, All, ok}
use multi_agent_build_system.Store.{Episode, Db, episode_key}
use multi_agent_build_system.Store.Table.{lookup, All-update, All-insert}
use multi_agent_build_system.Store.Approvals.{invalidate_all}
use multi_agent_build_system.Store.Stages.{
  get_episode, StageRequest, add_recovery, charged, assert_budget, closed_episode,
}
use multi_agent_build_system.Store.Calls.Effect.{
  Effect, stays, writes_tasks, opens, reserves, recovers, launches, finishes, collects, binds,
  admits, activates, releases, requests, decides, consumes, invalidates, run_stable,
}
use multi_agent_build_system.Store.Calls.{Call, run}

-- An episode has spent no more repairs and recoveries than it may.
abbrev pub IsWithinBudget : Episode → Type 0
IsWithinBudget e =
    (e.repairs_consumed ≤ e.repair_limit) × (e.recoveries_consumed ≤ e.recovery_limit)

charged-IsWithinBudget :
    (r : StageRequest) (e : Episode)
    → assert_budget r e ≡ ok tt
    → IsWithinBudget e
    → IsWithinBudget (charged r e)
unfolding assert_budget
charged-IsWithinBudget r e h (a, b) = ground arith

same_row :
    (id : String) (d : Db) {e x : Episode}
    → get_episode id d ≡ some e
    → lookup episode_key id d.episodes ≡ some x
    → e ≡ x
unfolding get_episode
same_row id d p q = cc

step-IsWithinBudget :
    (u : String → Type 0) (d d' : Db)
    → Effect u d d'
    → All IsWithinBudget d.episodes
    → All IsWithinBudget d'.episodes
unfolding invalidate_all
step-IsWithinBudget u d d' stays h = h
step-IsWithinBudget u d d' (writes_tasks ts es) h = h
step-IsWithinBudget u d d' (opens id t repairs recoveries ts es single fresh) h =
    All-insert IsWithinBudget d.episodes h (omega arith, omega arith)
step-IsWithinBudget u d d' (reserves id token r e ts es at budget) h =
    All-update episode_key IsWithinBudget r.episode_id (charged r) d.episodes h
      (λ x found p. charged-IsWithinBudget r x (rw (← same_row r.episode_id d at found) budget) p)
step-IsWithinBudget u d d' (recovers id e es at room) h =
    All-update episode_key IsWithinBudget id add_recovery d.episodes h
      (λ x found p. (p.0, rw (← same_row id d at found) (omega (arith, room))))
step-IsWithinBudget u d d' (launches id attempt gate s ts es at mine live) h = h
step-IsWithinBudget u d d' (finishes id o s ts es at mine live) h =
    All-update episode_key IsWithinBudget s.episode_id (closed_episode o.state s.stage) d.episodes h
      (λ e found p. p)
step-IsWithinBudget u d d' (collects gs es) h = h
step-IsWithinBudget u d d' (binds id gate s gs es at free) h = h
step-IsWithinBudget u d d' (admits id token project r es free) h = h
step-IsWithinBudget u d d' (activates id l s ts es held live at waits) h = h
step-IsWithinBudget u d d' (releases id l es held live) h = h
step-IsWithinBudget u d d' (requests a es waits) h = h
step-IsWithinBudget u d d' (decides a to e at waits) h = h
step-IsWithinBudget u d d' (consumes id a e at granted) h = h
step-IsWithinBudget u d d' (invalidates test) h = h

-- No sequence of calls lets an episode spend more repairs or recoveries than its limits.
pub run_budget :
    (calls : List Call) (d : Db)
    → All IsWithinBudget d.episodes
    → All IsWithinBudget (run calls d).episodes
run_budget calls d h = run_stable (λ x. All IsWithinBudget x.episodes) step-IsWithinBudget calls d h
