-- ===== src/Store/Tasks/Claims.antt =====
-- src/store/records.ts: `claimTask` and `retryTask` when two callers race.
use multi_agent_build_system.Prelude.{
  ℕ, ◌+◌, String, ◌≡◌, refl, ap, ◌≢◌, ◌⊎◌, false, none, some, arith, ok, throw,
}
use multi_agent_build_system.Task.{TaskState, state_eq_iff}
use multi_agent_build_system.Store.{Task, Db, version_changed, task_key}
use multi_agent_build_system.Store.Table.{update, lookup-update_self}
use multi_agent_build_system.Store.Tasks.{
  get_task, is_claimable, claim, claim_task, running_attempt, retried, retry_task,
}
use multi_agent_build_system.Store.Calls.Accepted.{claim-some, retry-ok}

written_row :
    (id : String) (f : Task → Task) (d d' : Db) {t : Task}
    → ((u : Task) → (f u).id ≡ u.id)
    → get_task id d ≡ some t
    → d'.tasks ≡ update task_key id f d.tasks
    → get_task id d' ≡ some (f t)
unfolding get_task
written_row id f d d' keeps found e = rw e (lookup-update_self task_key id f d.tasks keeps found)

claim-refused :
    (id launch : String) (d : Db) {t : Task}
    → get_task id d ≡ some t
    → is_claimable t ≡ false
    → claim_task id launch d ≡ none
unfolding claim_task
claim-refused id launch d found held = ground arith

-- A claim that succeeds found the task ready and free. It leaves the task with the launch that
-- claimed it, and every further claim of that task is refused.
pub claim_exclusive :
    (id launch : String) (d d' : Db)
    → claim_task id launch d ≡ some d'
    → (t : Task) × (get_task id d ≡ some t)
      × (t.state ≡ TaskState.ready)
      × (t.claimed_by ≡ none)
      × (get_task id d' ≡ some (claim launch t))
      × ((other : String) → claim_task id other d' ≡ none)
claim_exclusive id launch d d' h =
    let (t, found, free, e) = claim-some id launch d h in
    let now : get_task id d' ≡ some (claim launch t) =
      written_row id (claim launch) d d' (λ u. refl) found (ap (λ x. x.tasks) e) in
    (
      t,
      found,
      ground (arith, free, state_eq_iff t.state TaskState.ready),
      ground (arith, free),
      now,
      λ other. claim-refused id other d' now (ground arith),
    )

retry-stale :
    (id : String) (expected : ℕ) (d : Db) {t : Task}
    → get_task id d ≡ some t
    → t.record_version ≢ expected
    → retry_task id expected d ≡ throw (version_changed id expected t.record_version)
unfolding retry_task
retry-stale id expected d found stale = ground arith

-- A retry that succeeds saw the version that it names, on a task that is blocked or failed and runs
-- no attempt. It leaves the task ready, free and one version on, and a second retry that names the same version throws.
pub retry_once :
    (id : String) (expected : ℕ) (d d' : Db)
    → retry_task id expected d ≡ ok d'
    → (t : Task) × (get_task id d ≡ some t)
      × (t.record_version ≡ expected)
      × ((t.state ≡ TaskState.blocked) ⊎ (t.state ≡ TaskState.failed))
      × (running_attempt id d ≡ none)
      × (get_task id d' ≡ some (retried t))
      × (retry_task id expected d' ≡ throw (version_changed id expected (expected + 1)))
retry_once id expected d d' h =
    let (t, found, same, stopped, quiet, step, e) = retry-ok id expected d h in
    let now : get_task id d' ≡ some (retried t) =
      written_row id retried d d' (λ u. refl) found (ap (λ x. x.tasks) e) in
    (
      t,
      found,
      same,
      stopped,
      quiet,
      now,
      ground (arith, same, retry-stale id expected d' now (omega (arith, same))),
    )
