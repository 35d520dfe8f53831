-- ===== src/Store/Calls/Tasks.antt =====
-- src/store/records.ts: the rows of tasks through any sequence of calls. Their states move by the table of
-- transitions, one move a call, and their versions never go back.
use multi_agent_build_system.Prelude.{
  ℕ, ◌+◌, ◌≤◌, String, ◌≡◌, refl, sym, ap, ◌∙◌, subst, ◌≢◌, ◌⊎◌, inl, inr, true, Option, some, List,
  arith, Option-cases, Outcome, ok,
}
use multi_agent_build_system.Task.{TaskState, can_transition}
use multi_agent_build_system.Store.Calls.Recorded.{record_gate-ok}
use multi_agent_build_system.Store.{Task, GateResult, Db, StoreError, task_key}
use multi_agent_build_system.Store.Table.{update}
use multi_agent_build_system.Store.Table.Tracked.{Tracked, Tracked-same, Tracked-update}
use multi_agent_build_system.Store.Tasks.{
  get_task, TaskField, enter, assert_move, transition, claim, claim_task, unclaim, release_claim,
  retried, retry_task,
}
use multi_agent_build_system.Store.Tasks.Moves.{enter-id, enter_state, move_allowed, transition-ok}
use multi_agent_build_system.Store.Stages.{
  touched, create_execution_episode, StageRequest, entered, reserve_stage, consume_recovery,
  record_launch_started, StageOutcome, next_task_state, finished_task, finish_stage, record_gate,
}
use multi_agent_build_system.Store.Stages.Fences.{finished_task-id}
use multi_agent_build_system.Store.Approvals.{
  get_approval, request_approval, Verdict, decide_approval, mark_approval_consumed,
  invalidate_project_approvals, keeps, invalidate_approvals,
}
use multi_agent_build_system.Store.Calls.Accepted.{
  claim-some, retry-ok, create-ok, reserve-ok, consume-ok, launch-ok, finish-ok,
  reserve_admission-ok, activate-ok, release_admission-ok,
}
use multi_agent_build_system.Execution.{task_state_for_stage}
use multi_agent_build_system.Policy.{ApprovalBinding}
use multi_agent_build_system.Store.Calls.{
  Call, call_transition, call_claim, call_release, call_retry, call_create_episode,
  call_reserve_stage, call_consume_recovery, call_launch_started, call_finish_stage,
  call_record_gate, call_reserve_admission, call_activate_admission, call_release_admission,
  call_request_approval, call_decide_approval, call_consume_approval, call_invalidate_project,
  call_invalidate, kept, perform, run, run_invariant, kept-elim,
}
use multi_agent_build_system.Store.Leases.{
  AdmissionRequest, reserve_admission, activate_admission, release_admission,
}

-- The row of a task before and after one call: its state stays and its version does not go back, or its
-- state goes to one that the table of transitions gives, and its version is one more.
abbrev pub Moved : Task → Task → Type 0
Moved t t' =
    ((t'.state ≡ t.state) × (t.record_version ≤ t'.record_version))
    ⊎ ((can_transition t.state t'.state ≡ true) × (t'.record_version ≡ t.record_version + 1))

Moved-same : (t : Task) → Moved t t
Moved-same t = inl (refl, omega arith)

-- One move that `assertTransition` lets pass, with the version that the write gives.
Moved-by :
    (t t' : Task)
    → assert_move t.state t'.state ≡ ok tt
    → t'.record_version ≡ t.record_version + 1
    → Moved t t'
Moved-by t t' h version = elim (move_allowed t.state t'.state h) [
  | inl same ↦ inl (sym same, omega (arith, version))
  | inr step ↦ inr (step, version)
]

abbrev Kept : Db → Db → Type 0
Kept d d' = Tracked task_key Moved d.tasks d'.tasks

written :
    (id : String) (f : Task → Task) (d d' : Db)
    → ((t : Task) → (f t).id ≡ t.id)
    → ((t : Task) → get_task id d ≡ some t → Moved t (f t))
    → d'.tasks ≡ update task_key id f d.tasks
    → Kept d d'
unfolding get_task
written id f d d' keeps step e =
    subst (Tracked task_key Moved d.tasks) (sym e)
      (Tracked-update task_key Moved Moved-same id f d.tasks keeps step)

unchanged : (d d' : Db) → d'.tasks ≡ d.tasks → Kept d d'
unchanged d d' e =
    subst (Tracked task_key Moved d.tasks) (sym e) (Tracked-same task_key Moved Moved-same d.tasks)

touched-Kept : (id : String) (d d' : Db) → d'.tasks ≡ update task_key id touched d.tasks → Kept d d'
touched-Kept id d d' e = written id touched d d' (λ t. refl) (λ t found. inl (refl, omega arith)) e

-- Two lookups of one key find one row.
same_row :
    (id : String) (d : Db) {t u : Task} → get_task id d ≡ some t → get_task id d ≡ some u → t ≡ u
same_row id d p q = cc

transition-Kept :
    (id : String) (to : TaskState) (fields : List TaskField) (d d' : Db)
    → transition id to fields d ≡ ok d'
    → Kept d d'
transition-Kept id to fields d d' h =
    let (t, found, moved, e) = transition-ok id to fields d h in
    written id (enter to fields) d d' (enter-id to fields)
      (λ u at.
        let (state, version) = enter_state to fields u in
        let same : t ≡ u = same_row id d found at in
        Moved-by u (enter to fields u) (rw state (rw (← same) moved)) version)
      (ap (λ x. x.tasks) e)

claim-Kept : (id launch : String) (d d' : Db) → claim_task id launch d ≡ some d' → Kept d d'
claim-Kept id launch d d' h =
    let (t, found, free, e) = claim-some id launch d h in
    written id (claim launch) d d' (λ u. refl) (λ u at. inl (refl, omega arith))
      (ap (λ x. x.tasks) e)

retry-Kept : (id : String) (expected : ℕ) (d d' : Db) → retry_task id expected d ≡ ok d' → Kept d d'
retry-Kept id expected d d' h =
    let (t, found, same, stopped, quiet, step, e) = retry-ok id expected d h in
    written id retried d d' (λ u. refl)
      (λ u at. let same : t ≡ u = same_row id d found at in inr (rw (← same) step, refl))
      (ap (λ x. x.tasks) e)

reserve-Kept :
    (id token : String) (r : StageRequest) (d d' : Db)
    → reserve_stage id token r d ≡ ok d'
    → Kept d d'
reserve-Kept id token r d d' h =
    let (t, ep, found, at, alive, mine, budget, moved, e) = reserve-ok id token r d h in
    written r.task_id (entered (task_state_for_stage r.stage)) d d' (λ u. refl)
      (λ u at.
        let same : t ≡ u = same_row r.task_id d found at in
        Moved-by u (entered (task_state_for_stage r.stage) u) (rw (← same) moved) refl)
      (ap (λ x. x.tasks) e)

finished_task-Moved :
    (o : StageOutcome) (to : TaskState) (t : Task)
    → assert_move t.state to ≡ ok tt
    → Moved t (finished_task o to t)
finished_task-Moved o to t moved =
    let state : (finished_task o to t).state ≡ to = ground arith in
    Moved-by t (finished_task o to t) (rw state moved) (ground arith)

finish-Kept :
    (id token : String) (o : StageOutcome) (d d' : Db)
    → finish_stage id token o d ≡ ok d'
    → Kept d d'
finish-Kept id token o d d' h =
    let (s, t, at, found, fence, live, moved, e) = finish-ok id token o d h in
    written s.task_id (finished_task o (next_task_state o s.stage t.state)) d d'
      (λ u. finished_task-id o (next_task_state o s.stage t.state) u)
      (λ u at.
        let same : t ≡ u = same_row s.task_id d found at in
        finished_task-Moved o (next_task_state o s.stage t.state) u (rw (← same) moved))
      (ap (λ x. x.tasks) e)

abbrev Step : Db → Outcome StoreError Db → Type 0
Step d o = (d' : Db) → o ≡ ok d' → Kept d d'

kept-Kept : (d : Db) (o : Outcome StoreError Db) → Step d o → Kept d (kept d o)
kept-Kept d o step = kept-elim (Kept d) d o (unchanged d d refl) step

create-Kept :
    (id task : String) (expected : ℕ) (repairs recoveries : Option ℕ) (d : Db)
    → Step d (create_execution_episode id task expected repairs recoveries d)
create-Kept id task expected repairs recoveries d d' h =
    let (t, found, alive, single, fresh, e) = create-ok id task expected repairs recoveries d h in
    touched-Kept task d d' (ap (λ x. x.tasks) e)

consume-Kept : (episode stage : String) (d : Db) → Step d (consume_recovery episode stage d)
consume-Kept episode stage d d' h =
    let (ep, at, live, room, e) = consume-ok episode stage d h in
    unchanged d d' (ap (λ x. x.tasks) e)

launch-Kept :
    (id token : String) (attempt gate : Option String) (d : Db)
    → Step d (record_launch_started id token attempt gate d)
launch-Kept id token attempt gate d d' h =
    let (s, at, fence, live, e) = launch-ok id token attempt gate d h in
    touched-Kept s.task_id d d' (ap (λ x. x.tasks) e)

reserve_admission-Kept :
    (id token : String) (r : AdmissionRequest) (d : Db) → Step d (reserve_admission id token r d)
reserve_admission-Kept id token r d d' h =
    let (s, t, at, live, free, e) = reserve_admission-ok id token r d h in
    unchanged d d' (ap (λ x. x.tasks) e)

activate-Kept : (id token : String) (d : Db) → Step d (activate_admission id token d)
activate-Kept id token d d' h =
    let (l, s, t, held, at, fence, live, waits, e) = activate-ok id token d h in
    touched-Kept t.id d d' (ap (λ x. x.tasks) e)

release_admission-Kept : (id token : String) (d : Db) → Step d (release_admission id token d)
release_admission-Kept id token d d' h =
    let (l, t, held, fence, live, e) = release_admission-ok id token d h in
    unchanged d d' (ap (λ x. x.tasks) e)

request-Kept :
    (id project : String) (task : Option String) (b : ApprovalBinding) (d : Db)
    → Step d (request_approval id project task b d)
unfolding request_approval
request-Kept id project task b d d' h = unchanged d d' (ground arith)

release_tasks :
    (id : String) (d : Db) → (release_claim id d).tasks ≡ update task_key id unclaim d.tasks
unfolding release_claim
release_tasks id d = refl

project_tasks :
    (project : String) (d : Db) → (invalidate_project_approvals project d).tasks ≡ d.tasks
unfolding invalidate_project_approvals
project_tasks project d = refl

invalidate_tasks :
    (task : String) (keep : Option String) (d : Db)
    → (invalidate_approvals task keep d).tasks ≡ d.tasks
unfolding invalidate_approvals
invalidate_tasks task keep d = refl

decide_tasks : (id : String) (v : Verdict) (d : Db) → ((decide_approval id v d).0).tasks ≡ d.tasks
unfolding decide_approval
decide_tasks id v d = elim (Option-cases (get_approval id d)) [
  | inl missing ↦ ground arith
  | inr (a, found) ↦ ground arith
]

consumed-Kept : (id : String) (d : Db) → Step d (mark_approval_consumed id d)
unfolding mark_approval_consumed
consumed-Kept id d d' h = unchanged d d' (ground arith)

gate-Kept : (g : GateResult) (d : Db) → Step d (record_gate g d)
gate-Kept g d d' h = elim (record_gate-ok g d h) [
  | inl same ↦ rw same (unchanged d d refl)
  | inr (inl alone) ↦ unchanged d d' (ap (λ x. x.tasks) alone)
  | inr (inr (id, s, at, free, e)) ↦ unchanged d d' (ap (λ x. x.tasks) e)
]

perform-Kept : (c : Call) (d : Db) → Kept d (perform c d)
unfolding perform
perform-Kept (call_transition id to fields) d = kept-Kept d _ (transition-Kept id to fields d)
perform-Kept (call_claim id launch) d = elim (Option-cases (claim_task id launch d)) [
  | inl held ↦ rw held (unchanged d d refl)
  | inr (d', won) ↦ rw won (claim-Kept id launch d d' won)
]
perform-Kept (call_release id) d =
    written id unclaim d (release_claim id d) (λ u. refl) (λ u at. inl (refl, omega arith))
      (release_tasks id d)
perform-Kept (call_retry id expected) d = kept-Kept d _ (retry-Kept id expected d)
perform-Kept (call_create_episode id task expected repairs recoveries) d =
    kept-Kept d _ (create-Kept id task expected repairs recoveries d)
perform-Kept (call_reserve_stage id token r) d = kept-Kept d _ (reserve-Kept id token r d)
perform-Kept (call_consume_recovery episode stage) d = kept-Kept d _ (consume-Kept episode stage d)
perform-Kept (call_launch_started id token attempt gate) d =
    kept-Kept d _ (launch-Kept id token attempt gate d)
perform-Kept (call_finish_stage id token o) d = kept-Kept d _ (finish-Kept id token o d)
perform-Kept (call_record_gate g) d = kept-Kept d _ (gate-Kept g d)
perform-Kept (call_reserve_admission id token r) d =
    kept-Kept d _ (reserve_admission-Kept id token r d)
perform-Kept (call_activate_admission id token) d = kept-Kept d _ (activate-Kept id token d)
perform-Kept (call_release_admission id token) d = kept-Kept d _ (release_admission-Kept id token d)
perform-Kept (call_request_approval id project task b) d =
    kept-Kept d _ (request-Kept id project task b d)
perform-Kept (call_decide_approval id v) d =
    unchanged d (decide_approval id v d).0 (decide_tasks id v d)
perform-Kept (call_consume_approval id) d = kept-Kept d _ (consumed-Kept id d)
perform-Kept (call_invalidate_project project) d =
    unchanged d (invalidate_project_approvals project d) (project_tasks project d)
perform-Kept (call_invalidate task keep) d =
    unchanged d (invalidate_approvals task keep d) (invalidate_tasks task keep d)

-- A row that is there stays there.
unfoldable Has : String → Task → Db → Type 0
unfolding get_task
Has id t d = (u : Task) × (get_task id d ≡ some u) × (t.record_version ≤ u.record_version)

version_kept :
    (t u v : Task)
    → t.record_version ≤ u.record_version
    → Moved u v
    → t.record_version ≤ v.record_version
version_kept t u v le (inl (same, up)) = omega (arith, le, up)
version_kept t u v le (inr (step, up)) = omega (arith, le, up)

run-Has :
    (calls : List Call) (id : String) (d : Db) {t : Task}
    → get_task id d ≡ some t
    → Has id t (run calls d)
unfolding Has get_task
run-Has calls id d {t} found =
    run_invariant (Has id t)
      (λ c e (u, at, le).
        let (v, at', moved) = perform-Kept c e id u at in (v, at', version_kept t u v le moved))
      calls d (t, found, omega arith)

-- After any sequence of calls of the operations on tasks, executions, gates, leases and approvals, refused
-- ones included, a task has its row, with a version no smaller than before. The next call, whichever it
-- is, either leaves the state of the row and does not lower its version, or makes one move of the table of
-- transitions and raises the version by one.
pub run-Moved :
    (calls : List Call) (c : Call) (id : String) (d : Db) {t : Task}
    → get_task id d ≡ some t
    → (u v : Task) × (get_task id (run calls d) ≡ some u)
      × (t.record_version ≤ u.record_version)
      × (get_task id (perform c (run calls d)) ≡ some v)
      × Moved u v
unfolding Has get_task
run-Moved calls c id d {t} found =
    let (u, at, le) = run-Has calls id d found in
    let (v, at', moved) = perform-Kept c (run calls d) id u at in (u, v, at, le, at', moved)

no_way_out : (s t : TaskState) → can_transition s t ≡ true → s ≢ TaskState.done
unfolding can_transition
no_way_out s t h e = ground arith

unfoldable IsDone : String → Db → Type 0
unfolding get_task
IsDone id d = (u : Task) × (get_task id d ≡ some u) × (u.state ≡ TaskState.done)

done_kept : (u v : Task) → u.state ≡ TaskState.done → Moved u v → v.state ≡ TaskState.done
done_kept u v e (inl (same, up)) = same ∙ e
done_kept u v e (inr (step, up)) = absurd (no_way_out u.state v.state step e)

-- A task that is done stays done, whatever is called.
pub done_stays :
    (calls : List Call) (id : String) (d : Db) {t : Task}
    → get_task id d ≡ some t
    → t.state ≡ TaskState.done
    → (t' : Task) × (get_task id (run calls d) ≡ some t') × (t'.state ≡ TaskState.done)
unfolding IsDone get_task
done_stays calls id d {t} found final =
    run_invariant (IsDone id)
      (λ c e (u, at, over).
        let (v, at', moved) = perform-Kept c e id u at in (v, at', done_kept u v over moved))
      calls d (t, found, final)
