-- ===== src/Examples/Upkeep.antt =====
-- Retention and the maintenance lock at concrete inputs.
use multi_agent_build_system.Prelude.{
  ℕ, String, ◌≡◌, refl, Bool, true, false, Option, none, some, List, [], ◌∷◌, ◌++◌, map, arith,
  ◌==◌, All,
}
use multi_agent_build_system.Task.{TaskState}
use multi_agent_build_system.Maintenance.Retention.{
  RetainedTask, RetainedProject, Disk, project_named, refusal_of, prune_worktrees,
}
use multi_agent_build_system.Maintenance.Retention.Safe.{IsReclaimable, pruned-IsReclaimable}
use multi_agent_build_system.Maintenance.Lock.{holding, advance_all, is_owner}
use multi_agent_build_system.Maintenance.Lock.Fresh.{fresh, one_owner}
use multi_agent_build_system.Maintenance.Lock.Race.{stale, race, both_hold}

abbrev finished_task : String → String → TaskState → Option String → RetainedTask
finished_task id path state revision = record {
  id = id;
  project_id = "project-1";
  state = state;
  worktree_path = some path;
  branch = none;
  result_revision = revision;
  finished_at = 0;
}

abbrev finished_tasks : List RetainedTask
finished_tasks =
    finished_task "task-1" "/w/1" TaskState.done (some "abc")
    ∷ finished_task "task-2" "/w/2" TaskState.failed (some "abc")
    ∷ finished_task "task-3" "/w/3" TaskState.done none
    ∷ finished_task "task-4" "/w/4" TaskState.running (some "abc")
    ∷ []

abbrev sample_disk : Disk
sample_disk = record {
  exists_path = λ path. true;
  is_dirty = λ path. some false;
  is_merged = λ repo branch base. some false;
  can_remove = λ path. true;
}

abbrev sample_projects : List RetainedProject
sample_projects = record { id = "project-1"; repo_path = "/repo"; base_branch = "main" } ∷ []

-- 40 days
abbrev later : ℕ
later = 3456000000

-- The failed task is not old enough, the third has work that is nowhere else, and the fourth still runs.
one_removed_path :
    map {B = String}
      (λ c. c.path)
      (prune_worktrees sample_disk sample_projects later true finished_tasks).removed
    ≡ "/w/1" ∷ []
unfolding prune_worktrees project_named refusal_of
one_removed_path = refl

pruned-IsReclaimable_example :
    All
      (λ c.
        (before after : List RetainedTask) × (t : RetainedTask) × (finished_tasks
          ≡ before ++ t ∷ after)
        × IsReclaimable sample_disk sample_projects later t c.path)
      (prune_worktrees sample_disk sample_projects later true finished_tasks).removed
    × (◌≡◌ {A = Bool} true false
        → (prune_worktrees sample_disk sample_projects later true finished_tasks).removed ≡ [])
pruned-IsReclaimable_example =
    pruned-IsReclaimable sample_disk sample_projects later true finished_tasks

abbrev all_alive : ℕ → Bool
all_alive p = false

took_it : is_owner ((advance_all all_alive (1 ∷ 2 ∷ 2 ∷ 1 ∷ []) fresh).phase 1) ≡ true
unfolding advance_all
took_it = refl

-- Processes 1 and 2 take turns; process 1 opens the file first.
one_owner_example : is_owner ((advance_all all_alive (1 ∷ 2 ∷ 2 ∷ 1 ∷ []) fresh).phase 2) ≡ false
one_owner_example = one_owner all_alive (λ q. refl) (1 ∷ 2 ∷ 2 ∷ 1 ∷ []) 1 2 (omega arith) took_it

abbrev seven_gone : ℕ → Bool
seven_gone p = p == 7

both_hold_example :
    ((advance_all seven_gone (race 1 2) (stale 7)).phase 1 ≡ holding)
    × ((advance_all seven_gone (race 1 2) (stale 7)).phase 2 ≡ holding)
both_hold_example = both_hold seven_gone 7 1 2 refl (omega arith)
