-- ===== src/Controller/Contention.antt =====
-- src/operator/liveness.ts with src/store/records.ts: what an operator is told of a start, and what
-- the lease then does.
use multi_agent_build_system.Prelude.{
  ℕ, String, ◌≡◌, refl, ◌≢◌, ◌↔◌, Bool, true, false, not, Option, none, some, arith, str_eq_iff,
}
use multi_agent_build_system.Controller.{
  ControllerLease, is_renewed, acquire_controller_lease, crashed, heartbeat_age, is_fresh,
  process_alive, controller_liveness,
}

fresh-renewed :
    (beat : Option ℕ) (now stale_ms : ℕ)
    → is_fresh (heartbeat_age beat now) stale_ms ≡ is_renewed beat now stale_ms
unfolding is_renewed
fresh-renewed none now stale_ms = refl
fresh-renewed (some beat) now stale_ms = ground arith

refused_lem :
    (controller : String) (pid stale_ms now : ℕ) (l : ControllerLease)
    → l.controller_id ≢ controller
    → (acquire_controller_lease controller pid stale_ms now (some l)).1
      ≡ not (is_fresh (heartbeat_age l.heartbeat_at now) stale_ms)
unfolding acquire_controller_lease
refused_lem controller pid stale_ms now l theirs =
    ground (arith, str_eq_iff l.controller_id controller, fresh-renewed l.heartbeat_at now stale_ms)

-- A start is said to contend exactly when the recorded process is alive and the lease would be
-- refused to another controller. The process of a lease that is refused may be gone: then
-- the state is `crashed` and no contention is told, though the lease is still refused.
pub contends_iff :
    (exists : ℕ → Bool) (controller : String) (pid stale_ms now : ℕ) (l : ControllerLease)
    → l.controller_id ≢ controller
    → (((controller_liveness exists now stale_ms (some l)).start_would_contend ≡ true) ↔ (
        (process_alive exists l.pid ≡ true)
        × ((acquire_controller_lease controller pid stale_ms now (some l)).1 ≡ false)))
      × (((acquire_controller_lease controller pid stale_ms now (some l)).1 ≡ false)
          → (process_alive exists l.pid ≡ false)
          → ((controller_liveness exists now stale_ms (some l)).state ≡ crashed)
            × ((controller_liveness exists now stale_ms (some l)).start_would_contend ≡ false))
unfolding controller_liveness
contends_iff exists controller pid stale_ms now l theirs = (
  ground (arith, refused_lem controller pid stale_ms now l theirs),
  λ refused gone. ground (arith, refused_lem controller pid stale_ms now l theirs),
)
