-- ===== src/Obligations/Calls.antt =====
-- src/store/records.ts: any sequence of calls that record, reopen, decide and resolve obligations, with the
-- other calls of the store between them. A call that throws leaves the ledger as it was.
use multi_agent_build_system.Prelude.{
  String, ◌≡◌, refl, inl, inr, true, false, ◌&&◌, Option, some, List, [], ◌∷◌, arith, Option-cases,
  is_empty, any, Outcome, ok, throw,
}
use multi_agent_build_system.Store.{Db}
use multi_agent_build_system.Store.Calls.{Call, perform}
use multi_agent_build_system.Store.Tasks.{get_task}
use multi_agent_build_system.Store.Table.{update, insert}
use multi_agent_build_system.Obligations.{
  TaskObligation, ObligationEvent, obligation_recorded, obligation_updated, obligation_reopened,
  obligation_decided, Ledger, ObligationError, obligation_key, get_obligation, ObligationInput,
  new_obligation, obligation_clashes, record_obligation, is_addressed, is_live, is_resolved,
  reopened, reopen_obligation, Resolution, resolve, state_of, settled, resolve_obligation,
  decision_evidence, decide_obligation,
}

pub data ObligationCall : Type 0 where
  call_record : String → ObligationInput → ObligationCall
  call_reopen : String → List String → ObligationCall
  call_resolve : String → Resolution → Option String → List String → ObligationCall
  call_decide : String → String → String → String → ObligationCall
  call_store : Call → ObligationCall

abbrev pub settled_or : Ledger → Outcome ObligationError Ledger → Ledger
settled_or l (ok l') = l'
settled_or l (throw e) = l

unfoldable pub act : ObligationCall → Ledger → Ledger
act (call_record id r) l = settled_or l (record_obligation id r l)
act (call_reopen id evidence) l = settled_or l (reopen_obligation id evidence l)
act (call_resolve id to revision evidence) l =
    settled_or l (resolve_obligation id to revision evidence l)
act (call_decide event id answer by) l = settled_or l (decide_obligation event id answer by l)
act (call_store c) l = record l { db = perform c l.db }

unfoldable pub act_all : List ObligationCall → Ledger → Ledger
act_all [] l = l
act_all (c ∷ calls) l = act_all calls (act c l)

-- What a call does to the rows of obligations, with the guards that it has passed.
pub data Effect (l : Ledger) : Ledger → Type 0 where
  elsewhere : (d : Db) → Effect l (record l { db = d })
  adds :
      (id : String) (r : ObligationInput) (es : List ObligationEvent)
      → any (obligation_clashes id r) l.obligations ≡ false
      → Effect l
          (record l { obligations = insert (new_obligation id r) l.obligations; events = es })
  reopens :
      (id : String) (evidence : List String) (o : TaskObligation) (es : List ObligationEvent)
      → get_obligation id l ≡ some o
      → is_addressed o.state ≡ true
      → Effect l (record l {
        obligations = update obligation_key id (reopened evidence) l.obligations;
        events = es;
      })
  settles :
      (id : String) (to : Resolution) (revision : Option String) (evidence : List String)
      (o : TaskObligation) (es : List ObligationEvent)
      → get_obligation id l ≡ some o
      → is_live o.state ≡ true
      → (is_resolved (state_of to) && is_empty evidence) ≡ false
      → Effect l (record l {
        obligations = update obligation_key id (settled to revision evidence) l.obligations;
        events = es;
      })

settled_or-Effect :
    (l : Ledger) (o : Outcome ObligationError Ledger)
    → ((l' : Ledger) → o ≡ ok l' → Effect l l')
    → Effect l (settled_or l o)
settled_or-Effect l (ok l') step = step l' refl
settled_or-Effect l (throw e) step = elsewhere l.db

record-ok :
    (id : String) (r : ObligationInput) (l : Ledger) {l' : Ledger}
    → record_obligation id r l ≡ ok l'
    → (any (obligation_clashes id r) l.obligations ≡ false)
      × (l' ≡ record l {
        obligations = insert (new_obligation id r) l.obligations;
        events = obligation_recorded id r.kind r.source_key r.blocking ∷ l.events;
      })
unfolding record_obligation
record-ok id r l h = elim (Option-cases (get_task r.task_id l.db)) [
  | inl missing ↦ absurd (ground arith)
  | inr (t, found) ↦ (ground arith, ground arith)
]

reopen-ok :
    (id : String) (evidence : List String) (l : Ledger) {l' : Ledger}
    → reopen_obligation id evidence l ≡ ok l'
    → (o : TaskObligation) × (get_obligation id l ≡ some o)
      × (is_addressed o.state ≡ true)
      × (l' ≡ record l {
        obligations = update obligation_key id (reopened evidence) l.obligations;
        events = obligation_reopened id evidence ∷ l.events;
      })
unfolding reopen_obligation
reopen-ok id evidence l h = elim (Option-cases (get_obligation id l)) [
  | inl missing ↦ absurd (ground arith)
  | inr (o, found) ↦ elim (Option-cases (get_task o.task_id l.db)) [
    | inl missing ↦ absurd (ground arith)
    | inr (t, there) ↦ (o, found, ground arith, ground arith)
  ]
]

resolve-ok :
    (id : String) (to : Resolution) (revision : Option String) (evidence : List String) (l : Ledger)
    {l' : Ledger}
    → resolve_obligation id to revision evidence l ≡ ok l'
    → (o : TaskObligation) × (get_obligation id l ≡ some o)
      × (is_live o.state ≡ true)
      × ((is_resolved (state_of to) && is_empty evidence) ≡ false)
      × (l' ≡ record l {
        obligations = update obligation_key id (settled to revision evidence) l.obligations;
        events = obligation_updated id (state_of to) evidence ∷ l.events;
      })
unfolding resolve_obligation
resolve-ok id to revision evidence l h = elim (Option-cases (get_obligation id l)) [
  | inl missing ↦ absurd (ground arith)
  | inr (o, found) ↦ elim (Option-cases (get_task o.task_id l.db)) [
    | inl missing ↦ absurd (ground arith)
    | inr (t, there) ↦ (o, found, ground arith, ground arith, ground arith)
  ]
]

decide-ok :
    (event id answer by : String) (l : Ledger) {l' : Ledger}
    → decide_obligation event id answer by l ≡ ok l'
    → (revision : Option String) × (resolve_obligation id resolve revision
          (decision_evidence event by ∷ [])
          (record l { events = obligation_decided id answer by ∷ l.events })
        ≡ ok l')
unfolding decide_obligation
decide-ok event id answer by l h = elim (Option-cases (get_obligation id l)) [
  | inl missing ↦ absurd (ground arith)
  | inr (o, found) ↦ elim (Option-cases (get_task o.task_id l.db)) [
    | inl missing ↦ absurd (ground arith)
    | inr (t, there) ↦ (t.result_revision, ground arith)
  ]
]

decide-Effect :
    (event id answer by : String) (l : Ledger) {l' : Ledger}
    → decide_obligation event id answer by l ≡ ok l'
    → Effect l l'
unfolding get_obligation
decide-Effect event id answer by l h =
    let (revision, resolved_then) = decide-ok event id answer by l h in
    let (o, found, live, shown, e) =
      resolve-ok id resolve revision (decision_evidence event by ∷ [])
        (record l { events = obligation_decided id answer by ∷ l.events }) resolved_then in
    rw e (settles id resolve revision (decision_evidence event by ∷ []) o _ found live shown)

-- Every call is such a step, whether it is accepted or refused.
pub act-Effect : (c : ObligationCall) (l : Ledger) → Effect l (act c l)
unfolding act
act-Effect (call_record id r) l =
    settled_or-Effect l _ λ l' h. let (fresh, e) = record-ok id r l h in rw e (adds id r _ fresh)
act-Effect (call_reopen id evidence) l = settled_or-Effect l _ λ l' h.
    let (o, found, addressed, e) = reopen-ok id evidence l h in
    rw e (reopens id evidence o _ found addressed)
act-Effect (call_resolve id to revision evidence) l = settled_or-Effect l _ λ l' h.
    let (o, found, live, shown, e) = resolve-ok id to revision evidence l h in
    rw e (settles id to revision evidence o _ found live shown)
act-Effect (call_decide event id answer by) l =
    settled_or-Effect l _ λ l' h. decide-Effect event id answer by l h
act-Effect (call_store c) l = elsewhere _

-- What every step keeps, every sequence of calls keeps.
pub act_all_stable {ℓ} :
    (P : Ledger → Type ℓ)
    → ((l l' : Ledger) → Effect l l' → P l → P l')
    → (calls : List ObligationCall) (l : Ledger) → P l
    → P (act_all calls l)
unfolding act_all
act_all_stable P step [] l h = h
act_all_stable P step (c ∷ calls) l h =
    act_all_stable P step calls (act c l) (step l (act c l) (act-Effect c l) h)
