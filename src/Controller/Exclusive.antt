-- ===== src/Controller/Exclusive.antt =====
-- src/store/records.ts: one controller holds the lease at a time.
use multi_agent_build_system.Prelude.{
  ℕ, ◌+◌, ◌≤◌, String, ◌≡◌, refl, sym, ◌∙◌, ◌≢◌, inl, inr, true, false, Option, none, some, List,
  [], ◌∷◌, arith, str_eq, str_eq_iff, Bool-cases, All,
}
use multi_agent_build_system.Controller.{
  ControllerLease, is_renewed, taken, renewed, acquire_controller_lease,
}

-- The controller holds the lease and has renewed it at that time or after.
abbrev pub Holds : String → ℕ → Option ControllerLease → Type 0
Holds controller since lease =
    (l : ControllerLease) × (lease ≡ some l)
    × (l.controller_id ≡ controller)
    × (beat : ℕ) × (l.heartbeat_at ≡ some beat)
    × (since ≤ beat)

-- A call for the lease, by a controller at a time.
pub record Attempted : Type 0 where
  pub controller : String
  pub pid : ℕ
  pub at : ℕ

unfoldable pub attempts : ℕ → List Attempted → Option ControllerLease → Option ControllerLease
attempts stale_ms [] lease = lease
attempts stale_ms (c ∷ calls) lease =
    attempts stale_ms calls (acquire_controller_lease c.controller c.pid stale_ms c.at lease).0

-- A controller that is told it holds the lease does hold it.
pub acquired_Holds :
    (controller : String) (pid stale_ms now : ℕ) (lease : Option ControllerLease)
    → (acquire_controller_lease controller pid stale_ms now lease).1 ≡ true
    → Holds controller now (acquire_controller_lease controller pid stale_ms now lease).0
unfolding acquire_controller_lease
acquired_Holds controller pid stale_ms now none h =
    (taken controller pid now, refl, refl, now, refl, omega arith)
acquired_Holds controller pid stale_ms now (some l) h =
    elim (Bool-cases (str_eq l.controller_id controller)) [
      | inl own ↦ (
        renewed pid now l,
        rw own,
        (str_eq_iff l.controller_id controller).0 own,
        now,
        refl,
        omega arith,
      )
      | inr theirs ↦ elim (Bool-cases (is_renewed l.heartbeat_at now stale_ms)) [
        | inl live ↦ absurd (ground (arith, theirs, live))
        | inr stale ↦
            (taken controller pid now, ground (arith, theirs, stale), refl, now, refl, omega arith)
      ]
    ]

-- A call within the window after a renewal.
abbrev pub IsWithin : ℕ → ℕ → Attempted → Type 0
IsWithin since stale_ms c = (since ≤ c.at) × (c.at ≤ since + stale_ms)

still_live :
    (l : ControllerLease) (beat since stale_ms now : ℕ)
    → l.heartbeat_at ≡ some beat
    → since ≤ beat
    → now ≤ since + stale_ms
    → is_renewed l.heartbeat_at now stale_ms ≡ true
unfolding is_renewed
still_live l beat since stale_ms now at recent soon = rw at (ground arith)

refused :
    (c : Attempted) (l : ControllerLease) (stale_ms : ℕ)
    → l.controller_id ≢ c.controller
    → is_renewed l.heartbeat_at c.at stale_ms ≡ true
    → acquire_controller_lease c.controller c.pid stale_ms c.at (some l) ≡ (some l, false)
unfolding acquire_controller_lease
refused c l stale_ms theirs live = ground (arith, str_eq_iff l.controller_id c.controller)

own_renewal :
    (c : Attempted) (l : ControllerLease) (stale_ms : ℕ)
    → l.controller_id ≡ c.controller
    → acquire_controller_lease c.controller c.pid stale_ms c.at (some l)
      ≡ (some (renewed c.pid c.at l), true)
unfolding acquire_controller_lease
own_renewal c l stale_ms own = ground (arith, str_eq_iff l.controller_id c.controller)

attempt-Holds :
    (c : Attempted) (controller : String) (stale_ms since : ℕ) (lease : Option ControllerLease)
    → Holds controller since lease
    → IsWithin since stale_ms c
    → Holds controller since (acquire_controller_lease c.controller c.pid stale_ms c.at lease).0
attempt-Holds c controller stale_ms since lease (l, is, own, beat, at, recent) (after, soon) =
    elim (Bool-cases (str_eq l.controller_id c.controller)) [
      | inl ours ↦
          let e = own_renewal c l stale_ms ((str_eq_iff l.controller_id c.controller).0 ours) in
          (renewed c.pid c.at l, rw (is, e), own, c.at, refl, after)
      | inr theirs ↦
          let e =
            refused c l stale_ms (ground (arith, str_eq_iff l.controller_id c.controller, theirs))
              (still_live l beat since stale_ms c.at at recent soon) in
          (l, rw (is, e), own, beat, at, recent)
    ]

attempts-Holds :
    (calls : List Attempted) (controller : String) (stale_ms since : ℕ)
    (lease : Option ControllerLease)
    → Holds controller since lease
    → All (IsWithin since stale_ms) calls
    → Holds controller since (attempts stale_ms calls lease)
unfolding attempts
attempts-Holds [] controller stale_ms since lease held window = held
attempts-Holds (c ∷ calls) controller stale_ms since lease held (w, window) =
    attempts-Holds calls controller stale_ms since _
      (attempt-Holds c controller stale_ms since lease held w) window

-- While a controller's last renewal is within the window, it keeps the lease whatever calls for it are
-- made, and at the end of them every other controller that asks within the window is refused.
pub lease_exclusive :
    (calls : List Attempted) (controller : String) (stale_ms since : ℕ)
    (lease : Option ControllerLease)
    → Holds controller since lease
    → All (IsWithin since stale_ms) calls
    → Holds controller since (attempts stale_ms calls lease)
      × ((c : Attempted)
          → c.controller ≢ controller
          → IsWithin since stale_ms c
          → (acquire_controller_lease c.controller c.pid stale_ms c.at
              (attempts stale_ms calls lease)).1
            ≡ false)
lease_exclusive calls controller stale_ms since lease held window =
    let after = attempts-Holds calls controller stale_ms since lease held window in
    (
      after,
      λ c other (later, soon).
          let (l, is, own, beat, at, recent) = after in
          let e =
            refused c l stale_ms (λ same. other (sym same ∙ own))
              (still_live l beat since stale_ms c.at at recent soon) in
          rw (is, e),
    )
