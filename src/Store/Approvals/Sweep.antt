-- ===== src/Store/Approvals/Sweep.antt =====
-- src/store/records.ts: what `invalidateApprovals` and a stale decision leave.
use multi_agent_build_system.Prelude.{
  String, ◌≡◌, refl, sym, ap, ◌∙◌, subst, inl, inr, Bool, true, false, ◌&&◌, not, Option, none,
  some, List, [], ◌∷◌, arith, Bool-cases, is_empty, All, option_eq, throw,
}
use multi_agent_build_system.Store.{
  ApprovalState, Approval, Event, approval_invalidated, Db, approval_stale, approval_key,
}
use multi_agent_build_system.Store.Table.{lookup-key, lookup-update_self}
use multi_agent_build_system.Store.Approvals.{
  get_approval, is_open, settled, settle, drift, approve, decide_approval, swept, invalidate_where,
  keeps, invalidate_approvals,
}

swept_closed :
    (test : Approval → Bool) (a : Approval)
    → test (swept test a) ≡ test a
    → test a ≡ true
    → is_open (swept test a).state ≡ false
swept_closed test a same h = ground arith

-- No open approval that the test selects is left.
abbrev IsClosed : (Approval → Bool) → Approval → Type 0
IsClosed test a = test a ≡ true → is_open a.state ≡ false

swept-IsClosed :
    (test : Approval → Bool) (rows : List Approval)
    → ((a : Approval) → test (swept test a) ≡ test a)
    → All (IsClosed test) (invalidate_where test rows)
unfolding invalidate_where
swept-IsClosed test [] same = tt
swept-IsClosed test (a ∷ rows) same =
    (λ h. swept_closed test a (same a) (sym (same a) ∙ h), swept-IsClosed test rows same)

same_task :
    (task : String) (keep : Option String) (test : Approval → Bool) (a : Approval)
    → (option_eq (swept test a).task_id (some task) && not (keeps keep (swept test a)))
      ≡ (option_eq a.task_id (some task) && not (keeps keep a))
same_task task none test a = elim (Bool-cases (is_open a.state && test a)) [
  | inl hit ↦ rw hit refl
  | inr miss ↦ rw miss refl
]
same_task task (some r) test a = elim (Bool-cases (is_open a.state && test a)) [
  | inl hit ↦ rw hit refl
  | inr miss ↦ rw miss refl
]

-- After `invalidateApprovals` no approval of the task is pending or approved, but those for the revision that
-- is kept.
pub invalidate_closes :
    (task : String) (keep : Option String) (d : Db)
    → All
        (λ a.
          (option_eq a.task_id (some task) && not (keeps keep a)) ≡ true → is_open a.state ≡ false)
        (invalidate_approvals task keep d).approvals
unfolding invalidate_approvals
invalidate_closes task keep d =
    swept-IsClosed (λ a. option_eq a.task_id (some task) && not (keeps keep a)) d.approvals
      (same_task task keep (λ a. option_eq a.task_id (some task) && not (keeps keep a)))

decided_stale :
    (id : String) (d : Db) (a : Approval)
    → get_approval id d ≡ some a
    → a.state ≡ ApprovalState.pending
    → is_empty (drift a d) ≡ false
    → ((decide_approval id approve d).1 ≡ throw (approval_stale a.id (drift a d)))
      × ((decide_approval id approve d).0
          ≡ settle a.id ApprovalState.invalidated (approval_invalidated a.id) d)
unfolding decide_approval
decided_stale id d a found waits stale = ground arith

row_id : (id : String) (d : Db) {a : Approval} → get_approval id d ≡ some a → a.id ≡ id
unfolding get_approval
row_id id d found = lookup-key approval_key id d.approvals found

settled_row :
    (id : String) (to : ApprovalState) (e : Event) (d : Db) {a : Approval}
    → get_approval id d ≡ some a
    → get_approval id (settle id to e d) ≡ some (settled to a)
unfolding get_approval
settled_row id to e d found =
    lookup-update_self approval_key id (settled to) d.approvals (λ x. refl) found

-- To approve a pending approval whose binding has drifted throws, and leaves the approval
-- invalidated.
pub stale_invalidates :
    (id : String) (d : Db) (a : Approval)
    → get_approval id d ≡ some a
    → a.state ≡ ApprovalState.pending
    → is_empty (drift a d) ≡ false
    → ((decide_approval id approve d).1 ≡ throw (approval_stale id (drift a d)))
      × (get_approval id (decide_approval id approve d).0
          ≡ some (settled ApprovalState.invalidated a))
stale_invalidates id d a found waits stale =
    let (thrown, left) = decided_stale id d a found waits stale in
    let named : a.id ≡ id = row_id id d found in
    (
      thrown ∙ ap (λ x. throw (approval_stale x (drift a d))) named,
      rw left (
          subst
            (λ x.
              get_approval id (settle x ApprovalState.invalidated (approval_invalidated x) d)
              ≡ some (settled ApprovalState.invalidated a))
            (sym named)
            (settled_row id ApprovalState.invalidated (approval_invalidated id) d found)),
    )
