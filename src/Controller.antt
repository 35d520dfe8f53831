-- ===== src/Controller.antt =====
-- src/store/records.ts: the lease that lets one controller dispatch; src/operator/liveness.ts: what an operator is told
-- of it. Times are milliseconds; a heartbeat that `Date.parse` cannot read is none. Whether the operating system knows
-- a process is the parameter `exists`.
pub mod Exclusive
pub mod Contention
use multi_agent_build_system.Prelude.{
  ℕ, ◌+◌, ◌-◌, String, Bool, true, false, ◌&&◌, not, Option, none, some, str_eq, leb, ◌==◌,
  if◌then◌else◌,
}

pub record ControllerLease : Type 0 where
  pub controller_id : String
  pub pid : ℕ
  pub acquired_at : ℕ
  pub heartbeat_at : Option ℕ

-- `Number.isFinite(heartbeat) && Date.now() - heartbeat <= staleAfterMs`
unfoldable pub is_renewed : Option ℕ → ℕ → ℕ → Bool
is_renewed none now stale_ms = false
is_renewed (some beat) now stale_ms = leb now (beat + stale_ms)

abbrev pub taken : String → ℕ → ℕ → ControllerLease
taken controller pid now = record {
  controller_id = controller;
  pid = pid;
  acquired_at = now;
  heartbeat_at = some now;
}

abbrev pub renewed : ℕ → ℕ → ControllerLease → ControllerLease
renewed pid now l = record l { pid = pid; heartbeat_at = some now }

-- The lease that is left, and whether the caller holds it.
unfoldable pub acquire_controller_lease :
    String → ℕ → ℕ → ℕ → Option ControllerLease → Option ControllerLease × Bool
unfolding is_renewed
acquire_controller_lease controller pid stale_ms now none = (some (taken controller pid now), true)
acquire_controller_lease controller pid stale_ms now (some l) =
    if str_eq l.controller_id controller
    then (some (renewed pid now l), true)
    else (if is_renewed l.heartbeat_at now stale_ms
        then (some l, false)
        else (some (taken controller pid now), true))

unfoldable pub release_controller_lease : String → Option ControllerLease → Option ControllerLease
release_controller_lease controller none = none
release_controller_lease controller (some l) =
    if str_eq l.controller_id controller then none else some l

pub data LivenessState : Type 0 where
  not_running healthy wedged crashed : LivenessState

pub record ControllerLiveness : Type 0 where
  pub state : LivenessState
  pub controller_id : Option String
  pub pid : Option ℕ
  pub process_alive : Option Bool
  pub heartbeat_at : Option ℕ
  pub heartbeat_age_ms : Option ℕ
  pub start_would_contend : Bool

-- `Math.max(0, now - parsed)`
abbrev pub age : ℕ → ℕ → ℕ
age now beat = now - beat

abbrev pub heartbeat_age : Option ℕ → ℕ → Option ℕ
heartbeat_age none now = none
heartbeat_age (some beat) now = some (age now beat)

abbrev pub is_fresh : Option ℕ → ℕ → Bool
is_fresh none stale_ms = false
is_fresh (some a) stale_ms = leb a stale_ms

module _ (exists : ℕ → Bool) where
  unfoldable pub process_alive : ℕ → Bool
  process_alive pid = not (pid == 0) && exists pid

  unfoldable pub controller_liveness : ℕ → ℕ → Option ControllerLease → ControllerLiveness
  unfolding process_alive
  controller_liveness now stale_ms none = record {
    state = not_running;
    controller_id = none;
    pid = none;
    process_alive = none;
    heartbeat_at = none;
    heartbeat_age_ms = none;
    start_would_contend = false;
  }
  controller_liveness now stale_ms (some l) =
      let fresh = is_fresh (heartbeat_age l.heartbeat_at now) stale_ms in
      record {
        state =
            if not (process_alive l.pid) then crashed else (if not fresh then wedged else healthy);
        controller_id = some l.controller_id;
        pid = some l.pid;
        process_alive = some (process_alive l.pid);
        heartbeat_at = l.heartbeat_at;
        heartbeat_age_ms = heartbeat_age l.heartbeat_at now;
        start_would_contend = process_alive l.pid && fresh;
      }
