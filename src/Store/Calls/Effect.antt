-- ===== src/Store/Calls/Effect.antt =====
-- src/store/records.ts: one call as a step on the tables of episodes, stages, leases and approvals. A
-- step carries the guards that the call has passed; the rows of tasks and the events that it writes are left open.
use multi_agent_build_system.Prelude.{
  ℕ, ◌<◌, String, ◌≡◌, refl, sym, subst, ◌⊎◌, inl, inr, Bool, true, false, Option, none, some, List,
  [], ◌∷◌, arith, str_eq, str_eq_iff, Bool-cases, Option-cases, any, Outcome, ok,
}
use multi_agent_build_system.Store.{
  Task, Episode, StageRun, LeaseStatus, AdmissionLease, ApprovalState, Approval, Event, GateResult,
  Db, StoreError, episode_key, stage_key, lease_key, approval_key,
}
use multi_agent_build_system.Store.Tasks.Moves.{transition-ok}
use multi_agent_build_system.Store.Stages.{
  get_episode, get_stage, is_active_of, assert_fresh, new_episode, StageRequest, add_recovery,
  charged, new_stage, assert_budget, is_launchable, is_unfinished, launched, StageOutcome,
  finished_stage, closed_episode, bound, record_gate,
}
use multi_agent_build_system.Store.Leases.{
  get_lease, AdmissionRequest, is_reserved_stage, lease_clashes, new_lease, is_reserved_lease,
  is_held, with_status, launching_stage,
}
use multi_agent_build_system.Store.Approvals.{
  get_approval, request_approval, is_pending, is_approved, settle, drift, Verdict, approve, reject,
  decide_pending, decide_approval, invalidate_all, invalidate_project_approvals,
  invalidate_approvals,
}
use multi_agent_build_system.Store.Calls.{
  Call, call_transition, call_claim, call_release, call_retry, call_create_episode,
  call_reserve_stage, call_consume_recovery, call_launch_started, call_finish_stage,
  call_record_gate, call_reserve_admission, call_activate_admission, call_release_admission,
  call_request_approval, call_decide_approval, call_consume_approval, call_invalidate_project,
  call_invalidate, kept, perform, run, run_invariant, kept-elim,
}
use multi_agent_build_system.Store.Table.{update, lookup-key, insert}
use multi_agent_build_system.Store.Calls.Accepted.{
  claim-some, retry-ok, create-ok, reserve-ok, consume-ok, launch-ok, finish-ok,
  reserve_admission-ok, activate-ok, release_admission-ok, consumed-ok, request-ok,
}
use multi_agent_build_system.Store.Calls.Recorded.{record_gate-ok}
use multi_agent_build_system.Store.Tasks.{claim_task, release_claim}
use multi_agent_build_system.Policy.{ApprovalBinding}

-- The fencing token that a call brings to a stage.
abbrev pub bears : String → Call → Bool
bears token (call_launch_started id mine attempt gate) = str_eq mine token
bears token (call_finish_stage id mine o) = str_eq mine token
bears token _ = false

-- A step for the tokens `u` that the caller brings.
pub data Effect (u : String → Type 0) (d : Db) : Db → Type 0 where
  stays : Effect u d d
  writes_tasks :
      (ts : List Task) (es : List Event) → Effect u d (record d { tasks = ts; events = es })
  opens :
      (id : String) (t : Task) (repairs recoveries : ℕ) (ts : List Task) (es : List Event)
      → any (is_active_of t.id) d.episodes ≡ false
      → assert_fresh (get_episode id d) ≡ ok tt
      → Effect u d (record d {
        episodes = insert (new_episode id t d.episodes repairs recoveries) d.episodes;
        tasks = ts;
        events = es;
      })
  reserves :
      (id token : String) (r : StageRequest) (e : Episode) (ts : List Task) (es : List Event)
      → get_episode r.episode_id d ≡ some e
      → assert_budget r e ≡ ok tt
      → Effect u d (record d {
        episodes = update episode_key r.episode_id (charged r) d.episodes;
        stages = insert (new_stage id token r) d.stages;
        tasks = ts;
        events = es;
      })
  recovers :
      (id : String) (e : Episode) (es : List Event)
      → get_episode id d ≡ some e
      → e.recoveries_consumed < e.recovery_limit
      → Effect u d
          (record d { episodes = update episode_key id add_recovery d.episodes; events = es })
  launches :
      (id : String) (attempt gate : Option String) (s : StageRun) (ts : List Task) (es : List Event)
      → get_stage id d ≡ some s
      → u s.fencing_token
      → is_launchable s.state ≡ true
      → Effect u d (record d {
        stages = update stage_key id (launched attempt gate) d.stages;
        tasks = ts;
        events = es;
      })
  finishes :
      (id : String) (o : StageOutcome) (s : StageRun) (ts : List Task) (es : List Event)
      → get_stage id d ≡ some s
      → u s.fencing_token
      → is_unfinished s.state ≡ true
      → Effect u d (record d {
        stages = update stage_key id (finished_stage o) d.stages;
        tasks = ts;
        episodes = update episode_key s.episode_id (closed_episode o.state s.stage) d.episodes;
        events = es;
      })
  collects :
      (gs : List GateResult) (es : List Event) → Effect u d (record d { gates = gs; events = es })
  binds :
      (id gate : String) (s : StageRun) (gs : List GateResult) (es : List Event)
      → get_stage id d ≡ some s
      → s.gate_id ≡ none
      → Effect u d
          (record d { stages = update stage_key id (bound gate) d.stages; gates = gs; events = es })
  admits :
      (id token project : String) (r : AdmissionRequest) (es : List Event)
      → any (lease_clashes r token) d.leases ≡ false
      → Effect u d
          (record d { leases = insert (new_lease id token project r) d.leases; events = es })
  activates :
      (id : String) (l : AdmissionLease) (s : StageRun) (ts : List Task) (es : List Event)
      → get_lease id d ≡ some l
      → is_reserved_lease l.status ≡ true
      → get_stage l.stage_run_id d ≡ some s
      → is_reserved_stage s.state ≡ true
      → Effect u d (record d {
        leases = update lease_key id (with_status LeaseStatus.active) d.leases;
        stages = update stage_key l.stage_run_id launching_stage d.stages;
        tasks = ts;
        events = es;
      })
  releases :
      (id : String) (l : AdmissionLease) (es : List Event)
      → get_lease id d ≡ some l
      → is_held l.status ≡ true
      → Effect u d (record d {
        leases = update lease_key id (with_status LeaseStatus.released) d.leases;
        events = es;
      })
  requests :
      (a : Approval) (es : List Event)
      → a.state ≡ ApprovalState.pending
      → Effect u d (record d { approvals = insert a d.approvals; events = es })
  decides :
      (a : Approval) (to : ApprovalState) (e : Event)
      → get_approval a.id d ≡ some a
      → a.state ≡ ApprovalState.pending
      → Effect u d (settle a.id to e d)
  consumes :
      (id : String) (a : Approval) (e : Event)
      → get_approval id d ≡ some a
      → a.state ≡ ApprovalState.approved
      → Effect u d (settle id ApprovalState.consumed e d)
  invalidates : (test : Approval → Bool) → Effect u d (invalidate_all test d)

abbrev Steps : (String → Type 0) → Db → Outcome StoreError Db → Type 0
Steps u d o = (d' : Db) → o ≡ ok d' → Effect u d d'

kept-Effect :
    {u : String → Type 0} (d : Db) (o : Outcome StoreError Db) → Steps u d o → Effect u d (kept d o)
kept-Effect {u} d o step = kept-elim (Effect u d) d o stays step

decided-Effect :
    {u : String → Type 0} (v : Verdict) (a : Approval) (drifts : List String) (d : Db)
    → get_approval a.id d ≡ some a
    → a.state ≡ ApprovalState.pending
    → Effect u d (decide_pending v a drifts d).0
decided-Effect reject a drifts d found waits = decides a _ _ found waits
decided-Effect approve a [] d found waits = decides a _ _ found waits
decided-Effect approve a (x ∷ drifts) d found waits = decides a _ _ found waits

pending_state : (a : Approval) → is_pending a.state ≡ true → a.state ≡ ApprovalState.pending
pending_state a h = ground arith

approval-id : (id : String) (d : Db) {a : Approval} → get_approval id d ≡ some a → a.id ≡ id
unfolding get_approval
approval-id id d found = lookup-key approval_key id d.approvals found

decide-pending :
    (id : String) (v : Verdict) (d : Db) {a : Approval}
    → get_approval id d ≡ some a
    → is_pending a.state ≡ true
    → (decide_approval id v d).0 ≡ (decide_pending v a (drift a d) d).0
unfolding decide_approval
decide-pending id v d found waits = ground arith

decide-refused :
    (id : String) (v : Verdict) (d : Db)
    → ((get_approval id d ≡ none)
        ⊎ ((a : Approval) × (get_approval id d ≡ some a) × (is_pending a.state ≡ false)))
    → (decide_approval id v d).0 ≡ d
unfolding decide_approval
decide-refused id v d (inl missing) = ground arith
decide-refused id v d (inr (a, found, over)) = ground arith

decide-Effect :
    {u : String → Type 0} (id : String) (v : Verdict) (d : Db)
    → Effect u d (decide_approval id v d).0
decide-Effect id v d = elim (Option-cases (get_approval id d)) [
  | inl missing ↦ rw (decide-refused id v d (inl missing)) stays
  | inr (a, found) ↦ elim (Bool-cases (is_pending a.state)) [
    | inl waits ↦ rw (decide-pending id v d found waits) (
        decided-Effect v a (drift a d) d
          (subst (λ x. get_approval x d ≡ some a) (sym (approval-id id d found)) found)
          (pending_state a waits))
    | inr over ↦ rw (decide-refused id v d (inr (a, found, over))) stays
  ]
]

release-Effect : {u : String → Type 0} (id : String) (d : Db) → Effect u d (release_claim id d)
unfolding release_claim
release-Effect id d = writes_tasks _ _

project-Effect :
    {u : String → Type 0} (project : String) (d : Db)
    → Effect u d (invalidate_project_approvals project d)
unfolding invalidate_project_approvals
project-Effect project d = invalidates _

invalidate-Effect :
    {u : String → Type 0} (task : String) (keep : Option String) (d : Db)
    → Effect u d (invalidate_approvals task keep d)
unfolding invalidate_approvals
invalidate-Effect task keep d = invalidates _

approved_state : (a : Approval) → is_approved a.state ≡ true → a.state ≡ ApprovalState.approved
approved_state a h = ground arith

request-Effect :
    {u : String → Type 0} (id project : String) (task : Option String) (b : ApprovalBinding)
    (d : Db)
    → Steps u d (request_approval id project task b d)
request-Effect id project task b d d' h = rw (request-ok id project task b d h) (requests _ _ refl)

gate-Effect : {u : String → Type 0} (g : GateResult) (d : Db) → Steps u d (record_gate g d)
gate-Effect g d d' h = elim (record_gate-ok g d h) [
  | inl same ↦ rw same stays
  | inr (inl alone) ↦ rw alone (collects _ _)
  | inr (inr (id, s, at, free, e)) ↦ rw e (binds id g.id s _ _ at free)
]

same_token : (mine token : String) → str_eq mine token ≡ true → str_eq token mine ≡ true
same_token mine token h = ground (arith, str_eq_iff mine token, str_eq_iff token mine, h)

-- Every call is such a step, whether it is accepted or refused.
pub perform-Effect : (c : Call) (d : Db) → Effect (λ token. bears token c ≡ true) d (perform c d)
unfolding perform
perform-Effect (call_transition id to fields) d =
    kept-Effect d _
      λ d' h. let (t, found, moved, e) = transition-ok id to fields d h in rw e (writes_tasks _ _)
perform-Effect (call_claim id launch) d = elim (Option-cases (claim_task id launch d)) [
  | inl held ↦ rw held stays
  | inr (d', won) ↦
      let (t, found, free, e) = claim-some id launch d won in rw (won, e) (writes_tasks _ _)
]
perform-Effect (call_release id) d = release-Effect id d
perform-Effect (call_retry id expected) d = kept-Effect d _ λ d' h.
    let (t, found, same, stopped, quiet, step, e) = retry-ok id expected d h in
    rw e (writes_tasks _ _)
perform-Effect (call_create_episode id task expected repairs recoveries) d = kept-Effect d _ λ d' h.
    let (t, found, alive, single, fresh, e) = create-ok id task expected repairs recoveries d h in
    rw e (opens id t _ _ _ _ single fresh)
perform-Effect (call_reserve_stage id token r) d = kept-Effect d _ λ d' h.
    let (t, ep, found, at, alive, mine, budget, moved, e) = reserve-ok id token r d h in
    rw e (reserves id token r ep _ _ at budget)
perform-Effect (call_consume_recovery episode stage) d = kept-Effect d _ λ d' h.
    let (ep, at, live, room, e) = consume-ok episode stage d h in
    rw e (recovers episode ep _ at room)
perform-Effect (call_launch_started id token attempt gate) d = kept-Effect d _ λ d' h.
    let (s, at, fence, live, e) = launch-ok id token attempt gate d h in
    rw e (launches id attempt gate s _ _ at (same_token s.fencing_token token fence) live)
perform-Effect (call_finish_stage id token o) d = kept-Effect d _ λ d' h.
    let (s, t, at, found, fence, live, moved, e) = finish-ok id token o d h in
    rw e (finishes id o s _ _ at (same_token s.fencing_token token fence) live)
perform-Effect (call_record_gate g) d = kept-Effect d _ (gate-Effect g d)
perform-Effect (call_reserve_admission id token r) d = kept-Effect d _ λ d' h.
    let (s, t, at, live, free, e) = reserve_admission-ok id token r d h in
    rw e (admits id token t.project_id r _ free)
perform-Effect (call_activate_admission id token) d = kept-Effect d _ λ d' h.
    let (l, s, t, held, at, fence, live, waits, e) = activate-ok id token d h in
    rw e (activates id l s _ _ held live at waits)
perform-Effect (call_release_admission id token) d = kept-Effect d _ λ d' h.
    let (l, t, held, fence, live, e) = release_admission-ok id token d h in
    rw e (releases id l _ held live)
perform-Effect (call_request_approval id project task b) d =
    kept-Effect d _ (request-Effect id project task b d)
perform-Effect (call_decide_approval id v) d = decide-Effect id v d
perform-Effect (call_consume_approval id) d = kept-Effect d _ λ d' h.
    let (a, at, granted, e) = consumed-ok id d h in
    rw e (consumes id a _ at (approved_state a granted))
perform-Effect (call_invalidate_project project) d = project-Effect project d
perform-Effect (call_invalidate task keep) d = invalidate-Effect task keep d

-- What every step keeps, every sequence of calls keeps.
pub run_stable {ℓ} :
    (P : Db → Type ℓ)
    → ((u : String → Type 0) (d d' : Db) → Effect u d d' → P d → P d')
    → (calls : List Call) (d : Db) → P d
    → P (run calls d)
run_stable P step calls d h =
    run_invariant P
      (λ c e. step (λ token. bears token c ≡ true) e (perform c e) (perform-Effect c e)) calls d h
