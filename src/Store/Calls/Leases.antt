-- ===== src/Store/Calls/Leases.antt =====
-- src/store/records.ts: the rows of `admission_leases` through any sequence of calls.
use multi_agent_build_system.Prelude.{
  ℕ, ◌≤◌, String, ◌≡◌, refl, ap, ◌∙◌, true, false, some, List, arith,
}
use multi_agent_build_system.Store.{LeaseStatus, AdmissionLease, Db, lease_key}
use multi_agent_build_system.Store.Table.{lookup}
use multi_agent_build_system.Store.Table.Tracked.{
  Tracked, Tracked-same, Tracked-join, Tracked-update, Tracked-insert,
}
use multi_agent_build_system.Store.Approvals.{invalidate_all}
use multi_agent_build_system.Store.Leases.{
  get_lease, new_lease, is_reserved_lease, is_held, with_status,
}
use multi_agent_build_system.Store.Calls.{Call, run}
use multi_agent_build_system.Store.Calls.Effect.{
  Effect, stays, writes_tasks, opens, reserves, recovers, launches, finishes, collects, binds,
  admits, activates, releases, requests, decides, consumes, invalidates, run_stable,
}

-- How far a lease has come: reserved, active, over.
unfoldable pub lease_rank : LeaseStatus → ℕ
lease_rank LeaseStatus.reserved = 0
lease_rank LeaseStatus.active = 1
lease_rank _ = 2

-- The later row of a lease differs in its status alone, which only moves on and ends for good.
abbrev pub LeaseKeeps : AdmissionLease → AdmissionLease → Type 0
LeaseKeeps l l' =
    (l' ≡ with_status l'.status l)
    × (lease_rank l.status ≤ lease_rank l'.status)
    × (is_held l.status ≡ false → l' ≡ l)

LeaseKeeps-same : (l : AdmissionLease) → LeaseKeeps l l
LeaseKeeps-same l = (refl, omega arith, λ h. refl)

LeaseKeeps-join : (l m n : AdmissionLease) → LeaseKeeps l m → LeaseKeeps m n → LeaseKeeps l n
LeaseKeeps-join l m n (a, b, frozen) (a', b', frozen') = (
  a' ∙ ap (with_status n.status) a,
  omega arith,
  λ h. let same : m ≡ l = frozen h in frozen' (rw same h) ∙ same,
)

found_lease :
    (id : String) (d : Db) {l m : AdmissionLease}
    → get_lease id d ≡ some l
    → lookup lease_key id d.leases ≡ some m
    → l ≡ m
unfolding get_lease
found_lease id d p q = cc

activated :
    (l : AdmissionLease)
    → is_reserved_lease l.status ≡ true
    → LeaseKeeps l (with_status LeaseStatus.active l)
unfolding lease_rank
activated l h = (refl, ground arith, λ over. absurd (ground arith))

released_lease :
    (l : AdmissionLease)
    → is_held l.status ≡ true
    → LeaseKeeps l (with_status LeaseStatus.released l)
unfolding lease_rank
released_lease l h = (refl, ground arith, λ over. absurd (ground arith))

abbrev LeasesKept : Db → Db → Type 0
LeasesKept d d' = Tracked lease_key LeaseKeeps d.leases d'.leases

same_leases : (d : Db) → LeasesKept d d
same_leases d = Tracked-same lease_key LeaseKeeps LeaseKeeps-same d.leases

step-LeasesKept : (u : String → Type 0) (d d' : Db) → Effect u d d' → LeasesKept d d'
unfolding invalidate_all
step-LeasesKept u d d' stays = same_leases d
step-LeasesKept u d d' (writes_tasks ts es) = same_leases d
step-LeasesKept u d d' (opens id t repairs recoveries ts es single fresh) = same_leases d
step-LeasesKept u d d' (reserves id token r e ts es at budget) = same_leases d
step-LeasesKept u d d' (recovers id e es at room) = same_leases d
step-LeasesKept u d d' (launches id attempt gate s ts es at mine live) = same_leases d
step-LeasesKept u d d' (finishes id o s ts es at mine live) = same_leases d
step-LeasesKept u d d' (collects gs es) = same_leases d
step-LeasesKept u d d' (binds id gate s gs es at free) = same_leases d
step-LeasesKept u d d' (admits id token project r es free) =
    Tracked-insert lease_key LeaseKeeps LeaseKeeps-same (new_lease id token project r) d.leases
step-LeasesKept u d d' (activates id l s ts es held live at waits) =
    Tracked-update lease_key LeaseKeeps LeaseKeeps-same id (with_status LeaseStatus.active) d.leases
      (λ m. refl)
      (λ m found. let same : l ≡ m = found_lease id d held found in activated m (rw (← same) live))
step-LeasesKept u d d' (releases id l es held live) =
    Tracked-update lease_key LeaseKeeps LeaseKeeps-same id (with_status LeaseStatus.released)
      d.leases (λ m. refl)
      (λ m found.
        let same : l ≡ m = found_lease id d held found in released_lease m (rw (← same) live))
step-LeasesKept u d d' (requests a es waits) = same_leases d
step-LeasesKept u d d' (decides a to e at waits) = same_leases d
step-LeasesKept u d d' (consumes id a e at granted) = same_leases d
step-LeasesKept u d d' (invalidates test) = same_leases d

-- Through any sequence of calls an admission lease keeps its row, which changes in its status alone;
-- the status never goes back, and a lease that is neither reserved nor active stays as it is.
pub run-LeaseKeeps :
    (calls : List Call) (id : String) (d : Db) {l : AdmissionLease}
    → get_lease id d ≡ some l
    → (l' : AdmissionLease) × (get_lease id (run calls d) ≡ some l') × LeaseKeeps l l'
unfolding get_lease
run-LeaseKeeps calls id d {l} found =
    run_stable (LeasesKept d)
      (λ u e e' step h.
        Tracked-join lease_key LeaseKeeps LeaseKeeps-join _ _ _ h (step-LeasesKept u e e' step))
      calls d (same_leases d) id l found
