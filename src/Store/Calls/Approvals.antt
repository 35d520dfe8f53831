-- ===== src/Store/Calls/Approvals.antt =====
-- src/store/records.ts: the rows of `approvals` through any sequence of calls.
use multi_agent_build_system.Prelude.{
  String, ◌≡◌, refl, ap, ◌∙◌, Bool, true, false, some, List, [], ◌∷◌, arith,
}
use multi_agent_build_system.Store.{ApprovalState, Approval, Db, approval_key}
use multi_agent_build_system.Store.Table.{lookup}
use multi_agent_build_system.Store.Table.Tracked.{
  Tracked, Tracked-same, Tracked-join, Tracked-update, Tracked-cons, Tracked-insert,
}
use multi_agent_build_system.Store.Approvals.{
  get_approval, settled, swept, invalidate_where, invalidate_all,
}
use multi_agent_build_system.Store.Calls.{Call, run}
use multi_agent_build_system.Store.Calls.Effect.{
  Effect, stays, writes_tasks, opens, reserves, recovers, launches, finishes, collects, binds,
  admits, activates, releases, requests, decides, consumes, invalidates, run_stable,
}

-- Where the state of an approval may lead.
unfoldable pub leads : ApprovalState → ApprovalState → Bool
leads ApprovalState.pending to = true
leads ApprovalState.approved ApprovalState.approved = true
leads ApprovalState.approved ApprovalState.invalidated = true
leads ApprovalState.approved ApprovalState.consumed = true
leads ApprovalState.approved _ = false
leads ApprovalState.rejected ApprovalState.rejected = true
leads ApprovalState.rejected _ = false
leads ApprovalState.invalidated ApprovalState.invalidated = true
leads ApprovalState.invalidated _ = false
leads ApprovalState.consumed ApprovalState.consumed = true
leads ApprovalState.consumed _ = false

-- The later row of an approval differs in its state alone, and the state goes where it may.
abbrev pub ApprovalKeeps : Approval → Approval → Type 0
ApprovalKeeps a a' = (a' ≡ settled a'.state a) × (leads a.state a'.state ≡ true)

leads-same : (s : ApprovalState) → leads s s ≡ true
unfolding leads
leads-same s = ground arith

leads-join : (s t u : ApprovalState) → leads s t ≡ true → leads t u ≡ true → leads s u ≡ true
unfolding leads
leads-join s t u p q = ground arith

ApprovalKeeps-same : (a : Approval) → ApprovalKeeps a a
ApprovalKeeps-same a = (refl, leads-same a.state)

ApprovalKeeps-join : (a b c : Approval) → ApprovalKeeps a b → ApprovalKeeps b c → ApprovalKeeps a c
ApprovalKeeps-join a b c (p, q) (p', q') =
    (p' ∙ ap (settled c.state) p, leads-join a.state b.state c.state q q')

found_approval :
    (id : String) (d : Db) {a b : Approval}
    → get_approval id d ≡ some a
    → lookup approval_key id d.approvals ≡ some b
    → a ≡ b
unfolding get_approval
found_approval id d p q = cc

decided_row :
    (to : ApprovalState) (a : Approval)
    → a.state ≡ ApprovalState.pending
    → ApprovalKeeps a (settled to a)
unfolding leads
decided_row to a h = (refl, ground arith)

consumed_row :
    (a : Approval)
    → a.state ≡ ApprovalState.approved
    → ApprovalKeeps a (settled ApprovalState.consumed a)
unfolding leads
consumed_row a h = (refl, ground arith)

swept-id : (test : Approval → Bool) (a : Approval) → (swept test a).id ≡ a.id
swept-id test a = ground arith

swept-Keeps : (test : Approval → Bool) (a : Approval) → ApprovalKeeps a (swept test a)
unfolding leads
swept-Keeps test a = ground arith

invalidate-Keeps :
    (test : Approval → Bool) (rows : List Approval)
    → Tracked approval_key ApprovalKeeps rows (invalidate_where test rows)
unfolding invalidate_where
invalidate-Keeps test [] = Tracked-same approval_key ApprovalKeeps ApprovalKeeps-same []
invalidate-Keeps test (b ∷ rows) =
    Tracked-cons approval_key ApprovalKeeps b (swept test b) rows (invalidate_where test rows)
      (swept-id test b) (swept-Keeps test b) (invalidate-Keeps test rows)

abbrev ApprovalsKept : Db → Db → Type 0
ApprovalsKept d d' = Tracked approval_key ApprovalKeeps d.approvals d'.approvals

same_approvals : (d : Db) → ApprovalsKept d d
same_approvals d = Tracked-same approval_key ApprovalKeeps ApprovalKeeps-same d.approvals

step-ApprovalsKept : (u : String → Type 0) (d d' : Db) → Effect u d d' → ApprovalsKept d d'
unfolding invalidate_all
step-ApprovalsKept u d d' stays = same_approvals d
step-ApprovalsKept u d d' (writes_tasks ts es) = same_approvals d
step-ApprovalsKept u d d' (opens id t repairs recoveries ts es single fresh) = same_approvals d
step-ApprovalsKept u d d' (reserves id token r e ts es at budget) = same_approvals d
step-ApprovalsKept u d d' (recovers id e es at room) = same_approvals d
step-ApprovalsKept u d d' (launches id attempt gate s ts es at mine live) = same_approvals d
step-ApprovalsKept u d d' (finishes id o s ts es at mine live) = same_approvals d
step-ApprovalsKept u d d' (collects gs es) = same_approvals d
step-ApprovalsKept u d d' (binds id gate s gs es at free) = same_approvals d
step-ApprovalsKept u d d' (admits id token project r es free) = same_approvals d
step-ApprovalsKept u d d' (activates id l s ts es held live at waits) = same_approvals d
step-ApprovalsKept u d d' (releases id l es held live) = same_approvals d
step-ApprovalsKept u d d' (requests a es waits) =
    Tracked-insert approval_key ApprovalKeeps ApprovalKeeps-same a d.approvals
step-ApprovalsKept u d d' (decides a to e at waits) =
    Tracked-update approval_key ApprovalKeeps ApprovalKeeps-same a.id (settled to) d.approvals
      (λ b. refl)
      (λ b found.
        let same : a ≡ b = found_approval a.id d at found in decided_row to b (rw (← same) waits))
step-ApprovalsKept u d d' (consumes id a e at granted) =
    Tracked-update approval_key ApprovalKeeps ApprovalKeeps-same id (settled ApprovalState.consumed)
      d.approvals (λ b. refl)
      (λ b found.
        let same : a ≡ b = found_approval id d at found in consumed_row b (rw (← same) granted))
step-ApprovalsKept u d d' (invalidates test) = invalidate-Keeps test d.approvals

-- Through any sequence of calls an approval keeps its row and its binding. A rejected, an invalidated
-- and a consumed approval keeps its state; an approved one stays so until it is consumed or invalidated.
pub run-ApprovalKeeps :
    (calls : List Call) (id : String) (d : Db) {a : Approval}
    → get_approval id d ≡ some a
    → (a' : Approval) × (get_approval id (run calls d) ≡ some a') × ApprovalKeeps a a'
unfolding get_approval
run-ApprovalKeeps calls id d {a} found =
    run_stable (ApprovalsKept d)
      (λ u e e' step h.
        Tracked-join approval_key ApprovalKeeps ApprovalKeeps-join _ _ _ h
          (step-ApprovalsKept u e e' step))
      calls d (same_approvals d) id a found
