-- ===== src/Store/Calls/Single.antt =====
-- src/store/records.ts: the active episodes of a task through any sequence of calls.
use multi_agent_build_system.Prelude.{
  String, ◌≡◌, refl, sym, ◌≢◌, inl, inr, true, false, some, List, arith, str_eq_iff, any,
}
use multi_agent_build_system.Execution.{ExecutionStage}
use multi_agent_build_system.Store.{Episode, Db, episode_key}
use multi_agent_build_system.Store.Table.{lookup, update, any-lookup, insert}
use multi_agent_build_system.Store.Table.Tracked.{insert-lookup, update-lookup}
use multi_agent_build_system.Store.Approvals.{invalidate_all}
use multi_agent_build_system.Store.Stages.{
  is_active, is_active_of, new_episode, StageRequest, add_recovery, charged, FinalState,
  closed_episode,
}
use multi_agent_build_system.Store.Calls.{Call, run}
use multi_agent_build_system.Store.Calls.Effect.{
  Effect, stays, writes_tasks, opens, reserves, recovers, launches, finishes, collects, binds,
  admits, activates, releases, requests, decides, consumes, invalidates, run_stable,
}

-- The episodes of a task that are active: there is one at most.
abbrev pub IsSingle : List Episode → Type 0
IsSingle rows =
    (i j : String) (e f : Episode)
    → lookup episode_key i rows ≡ some e
    → lookup episode_key j rows ≡ some f
    → is_active e.status ≡ true
    → is_active f.status ≡ true
    → e.task_id ≡ f.task_id
    → i ≡ j

-- A write that keeps the task and activates nothing.
Revives : (Episode → Episode) → Type 0
Revives g =
    (e : Episode)
    → ((g e).id ≡ e.id)
      × ((g e).task_id ≡ e.task_id)
      × (is_active (g e).status ≡ true → is_active e.status ≡ true)

update-IsSingle :
    (k : String) (g : Episode → Episode) (rows : List Episode)
    → Revives g
    → IsSingle rows
    → IsSingle (update episode_key k g rows)
unfolding Revives
update-IsSingle k g rows quiet single i j e f p q a b same =
    let (e', at, e_is) = update-lookup episode_key k g rows i (λ x. (quiet x).0) p in
    let (f', at', f_is) = update-lookup episode_key k g rows j (λ x. (quiet x).0) q in
    single i j e' f' at at' (ground (arith, quiet e')) (ground (arith, quiet f'))
      (ground (arith, quiet e', quiet f'))

none_active :
    (task : String) (rows : List Episode) (i : String) {e : Episode}
    → any (is_active_of task) rows ≡ false
    → lookup episode_key i rows ≡ some e
    → is_active e.status ≡ true
    → e.task_id ≢ task
none_active task rows i {e} h at live =
    ground
      (arith, any-lookup episode_key (is_active_of task) i rows h at, str_eq_iff e.task_id task)

insert-IsSingle :
    (n : Episode) (rows : List Episode)
    → any (is_active_of n.task_id) rows ≡ false
    → IsSingle rows
    → IsSingle (insert n rows)
insert-IsSingle n rows free single i j e f p q a b same =
    elim (insert-lookup episode_key rows n i p) [
      | inl old ↦ elim (insert-lookup episode_key rows n j q) [
        | inl old' ↦ single i j e f old old' a b same
        | inr (fresh, named, is) ↦ absurd (none_active n.task_id rows i free old a (rw is same))
      ]
      | inr (fresh, named, is) ↦ elim (insert-lookup episode_key rows n j q) [
        | inl old' ↦ absurd (none_active n.task_id rows j free old' b (sym (rw is same)))
        | inr (fresh', named', is') ↦ cc
      ]
    ]

charged-Revives : (r : StageRequest) → Revives (charged r)
unfolding Revives
charged-Revives r e = ground arith

closed-Revives : (o : FinalState) (s : ExecutionStage) → Revives (closed_episode o s)
unfolding Revives
closed-Revives o s e = ground arith

add_recovery-Revives : Revives add_recovery
unfolding Revives
add_recovery-Revives e = (refl, refl, λ h. h)

step-IsSingle :
    (u : String → Type 0) (d d' : Db) → Effect u d d' → IsSingle d.episodes → IsSingle d'.episodes
unfolding invalidate_all
step-IsSingle u d d' stays h = h
step-IsSingle u d d' (writes_tasks ts es) h = h
step-IsSingle u d d' (opens id t repairs recoveries ts es single fresh) h =
    insert-IsSingle (new_episode id t d.episodes repairs recoveries) d.episodes single h
step-IsSingle u d d' (reserves id token r e ts es at budget) h =
    update-IsSingle r.episode_id (charged r) d.episodes (charged-Revives r) h
step-IsSingle u d d' (recovers id e es at room) h =
    update-IsSingle id add_recovery d.episodes add_recovery-Revives h
step-IsSingle u d d' (launches id attempt gate s ts es at mine live) h = h
step-IsSingle u d d' (finishes id o s ts es at mine live) h =
    update-IsSingle s.episode_id (closed_episode o.state s.stage) d.episodes
      (closed-Revives o.state s.stage) h
step-IsSingle u d d' (collects gs es) h = h
step-IsSingle u d d' (binds id gate s gs es at free) h = h
step-IsSingle u d d' (admits id token project r es free) h = h
step-IsSingle u d d' (activates id l s ts es held live at waits) h = h
step-IsSingle u d d' (releases id l es held live) h = h
step-IsSingle u d d' (requests a es waits) h = h
step-IsSingle u d d' (decides a to e at waits) h = h
step-IsSingle u d d' (consumes id a e at granted) h = h
step-IsSingle u d d' (invalidates test) h = h

-- No sequence of calls gives a task a second active episode.
pub run-IsSingle :
    (calls : List Call) (d : Db) → IsSingle d.episodes → IsSingle (run calls d).episodes
run-IsSingle calls d h = run_stable (λ x. IsSingle x.episodes) step-IsSingle calls d h
