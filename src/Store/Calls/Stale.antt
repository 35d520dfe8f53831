-- ===== src/Store/Calls/Stale.antt =====
-- src/store/records.ts: an approval that is found stale, and the calls that follow.
use multi_agent_build_system.Prelude.{
  String, ◌≡◌, subst, true, false, some, List, arith, is_empty, throw,
}
use multi_agent_build_system.Store.{
  ApprovalState, Approval, Db, approval_not_pending, approval_not_approved, approval_stale,
}
use multi_agent_build_system.Store.Approvals.{
  get_approval, settled, drift, Verdict, approve, decide_approval, mark_approval_consumed,
}
use multi_agent_build_system.Store.Approvals.Sweep.{stale_invalidates}
use multi_agent_build_system.Store.Calls.{Call, run}
use multi_agent_build_system.Store.Calls.Approvals.{leads, run-ApprovalKeeps}

-- Neither decision is taken on an approval that is invalidated, and it is not used.
unfoldable pub Closed : String → Db → Type 0
Closed id d =
    ((v : Verdict)
      → decide_approval id v d ≡ (d, throw (approval_not_pending id ApprovalState.invalidated)))
    × (mark_approval_consumed id d ≡ throw (approval_not_approved id ApprovalState.invalidated))

closed :
    (id : String) (d : Db) (a : Approval)
    → get_approval id d ≡ some a
    → a.state ≡ ApprovalState.invalidated
    → Closed id d
unfolding Closed decide_approval mark_approval_consumed
closed id d a found over = (λ v. ground (arith, found, over), ground (arith, found, over))

stays_invalidated :
    (to : ApprovalState)
    → leads ApprovalState.invalidated to ≡ true
    → to ≡ ApprovalState.invalidated
unfolding leads
stays_invalidated to h = ground arith

-- To approve a pending approval whose binding has drifted throws. Whatever is called afterwards, the
-- approval is there as it was requested but invalidated, every decision on it is refused and changes nothing,
-- and to consume it throws.
pub stale_never_granted :
    (id : String) (d : Db) (a : Approval) (calls : List Call)
    → get_approval id d ≡ some a
    → a.state ≡ ApprovalState.pending
    → is_empty (drift a d) ≡ false
    → ((decide_approval id approve d).1 ≡ throw (approval_stale id (drift a d)))
      × (get_approval id (run calls (decide_approval id approve d).0)
          ≡ some (settled ApprovalState.invalidated a))
      × Closed id (run calls (decide_approval id approve d).0)
stale_never_granted id d a calls found waits stale =
    let (thrown, left) = stale_invalidates id d a found waits stale in
    let (b, at, (row, way)) = run-ApprovalKeeps calls id (decide_approval id approve d).0 left in
    let over : b.state ≡ ApprovalState.invalidated = stays_invalidated b.state way in
    let same : b ≡ settled ApprovalState.invalidated a = subst (λ s. b ≡ settled s a) over row in
    (
      thrown,
      subst (λ x. get_approval id (run calls (decide_approval id approve d).0) ≡ some x) same at,
      closed id (run calls (decide_approval id approve d).0) b at over,
    )
