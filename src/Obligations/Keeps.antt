-- ===== src/Obligations/Keeps.antt =====
-- src/store/records.ts: the rows of `task_obligations` through any sequence of calls.
use multi_agent_build_system.Prelude.{
  String, ◌≡◌, refl, ap, ◌∙◌, inl, inr, true, false, Option, some, List, [], ◌∷◌, ◌++◌, arith,
  str_eq, str_eq_iff, Bool-cases, is_empty, All, includes, unique_beside,
}
use multi_agent_build_system.Plan.Graph.Sets.{includes-append}
use multi_agent_build_system.Store.Table.{lookup, All-update, All-insert}
use multi_agent_build_system.Store.Table.Tracked.{
  Tracked, Tracked-same, Tracked-join, Tracked-update, Tracked-insert,
}
use multi_agent_build_system.Obligations.{
  TaskObligation, Ledger, obligation_key, get_obligation, new_obligation, is_addressed, is_live,
  is_resolved, reopened, Resolution, settled,
}
use multi_agent_build_system.Obligations.Calls.{
  ObligationCall, act_all, Effect, elsewhere, adds, reopens, settles, act_all_stable,
}

includes-unique_beside :
    (seen xs : List String) (a : String)
    → includes xs a ≡ true
    → includes seen a ≡ false
    → includes (unique_beside seen xs) a ≡ true
unfolding unique_beside
includes-unique_beside seen [] a h absent = cc
includes-unique_beside seen (x ∷ xs) a h absent = elim (Bool-cases (str_eq x a)) [
  | inl same ↦
      let e : x ≡ a = (str_eq_iff x a).0 same in
      let new : includes seen x ≡ false = rw e absent in ground (arith, new, same)
  | inr differs ↦
      ground (arith, includes-unique_beside seen xs a, includes-unique_beside (x ∷ seen) xs a)
]

-- What a call may change in a row.
abbrev with_progress : TaskObligation → TaskObligation → TaskObligation
with_progress o o' = record o {
  state = o'.state;
  resolved_revision = o'.resolved_revision;
  evidence_refs = o'.evidence_refs;
  resolution_evidence = o'.resolution_evidence;
}

-- The later row keeps what was reported and every piece of evidence, and an obligation that is over keeps
-- its whole row.
abbrev pub ObligationKeeps : TaskObligation → TaskObligation → Type 0
ObligationKeeps o o' =
    (o' ≡ with_progress o o')
    × ((e : String) → includes o.evidence_refs e ≡ true → includes o'.evidence_refs e ≡ true)
    × (is_live o.state ≡ false → o' ≡ o)

ObligationKeeps-same : (o : TaskObligation) → ObligationKeeps o o
ObligationKeeps-same o = (refl, λ e h. h, λ h. refl)

ObligationKeeps-join :
    (o p q : TaskObligation) → ObligationKeeps o p → ObligationKeeps p q → ObligationKeeps o q
ObligationKeeps-join o p q (a, b, frozen) (a', b', frozen') = (
  a' ∙ ap (λ x. with_progress x q) a,
  λ e h. b' e (b e h),
  λ h. let same : p ≡ o = frozen h in frozen' (rw same h) ∙ same,
)

reopened-ObligationKeeps :
    (evidence : List String) (o : TaskObligation)
    → is_addressed o.state ≡ true
    → ObligationKeeps o (reopened evidence o)
reopened-ObligationKeeps evidence o h = (
  refl,
  λ e m.
      includes-unique_beside [] (o.evidence_refs ++ evidence) e
        (ground (arith, includes-append o.evidence_refs evidence e)) refl,
  λ over. absurd (ground arith),
)

settled-ObligationKeeps :
    (to : Resolution) (revision : Option String) (evidence : List String) (o : TaskObligation)
    → is_live o.state ≡ true
    → ObligationKeeps o (settled to revision evidence o)
settled-ObligationKeeps to revision evidence o h = (refl, λ e m. m, λ over. absurd (ground arith))

abbrev LedgerKept : Ledger → Ledger → Type 0
LedgerKept l l' = Tracked obligation_key ObligationKeeps l.obligations l'.obligations

found_row :
    (id : String) (l : Ledger) {o p : TaskObligation}
    → get_obligation id l ≡ some o
    → lookup obligation_key id l.obligations ≡ some p
    → o ≡ p
unfolding get_obligation
found_row id l p q = cc

step-LedgerKept : (l l' : Ledger) → Effect l l' → LedgerKept l l'
step-LedgerKept l l' (elsewhere d) =
    Tracked-same obligation_key ObligationKeeps ObligationKeeps-same l.obligations
step-LedgerKept l l' (adds id r es fresh) =
    Tracked-insert obligation_key ObligationKeeps ObligationKeeps-same (new_obligation id r)
      l.obligations
step-LedgerKept l l' (reopens id evidence o es at addressed) =
    Tracked-update obligation_key ObligationKeeps ObligationKeeps-same id (reopened evidence)
      l.obligations (λ p. refl)
      (λ p found.
        let same : o ≡ p = found_row id l at found in
        reopened-ObligationKeeps evidence p (rw (← same) addressed))
step-LedgerKept l l' (settles id to revision evidence o es at live shown) =
    Tracked-update obligation_key ObligationKeeps ObligationKeeps-same id
      (settled to revision evidence) l.obligations (λ p. refl)
      (λ p found.
        let same : o ≡ p = found_row id l at found in
        settled-ObligationKeeps to revision evidence p (rw (← same) live))

-- Through any sequence of calls an obligation keeps its row and all that was reported with it; the
-- evidence that its row refers to only grows; and one that is resolved, superseded or withdrawn
-- stays as it is.
pub act_all-ObligationKeeps :
    (calls : List ObligationCall) (id : String) (l : Ledger) {o : TaskObligation}
    → get_obligation id l ≡ some o
    → (o' : TaskObligation) × (get_obligation id (act_all calls l) ≡ some o') × ObligationKeeps o o'
unfolding get_obligation
act_all-ObligationKeeps calls id l {o} found =
    act_all_stable (LedgerKept l)
      (λ m m' step h.
        Tracked-join obligation_key ObligationKeeps ObligationKeeps-join _ _ _ h
          (step-LedgerKept m m' step))
      calls l (Tracked-same obligation_key ObligationKeeps ObligationKeeps-same l.obligations) id o
      found

-- An obligation that is resolved has evidence for it.
abbrev pub HasEvidence : TaskObligation → Type 0
HasEvidence o = is_resolved o.state ≡ true → is_empty o.resolution_evidence ≡ false

step-HasEvidence :
    (l l' : Ledger) → Effect l l' → All HasEvidence l.obligations → All HasEvidence l'.obligations
step-HasEvidence l l' (elsewhere d) h = h
step-HasEvidence l l' (adds id r es fresh) h = All-insert HasEvidence l.obligations h (λ e. cc)
step-HasEvidence l l' (reopens id evidence o es at addressed) h =
    All-update obligation_key HasEvidence id (reopened evidence) l.obligations h (λ p found q e. cc)
step-HasEvidence l l' (settles id to revision evidence o es at live shown) h =
    All-update obligation_key HasEvidence id (settled to revision evidence) l.obligations h
      (λ p found q e. ground arith)

-- No sequence of calls leaves an obligation resolved without evidence, if there was none before.
pub act_all-HasEvidence :
    (calls : List ObligationCall) (l : Ledger)
    → All HasEvidence l.obligations
    → All HasEvidence (act_all calls l).obligations
act_all-HasEvidence calls l h =
    act_all_stable (λ m. All HasEvidence m.obligations) step-HasEvidence calls l h
