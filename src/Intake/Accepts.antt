-- ===== src/Intake/Accepts.antt =====
-- src/intake/service.ts: a plan that was presented can be accepted.
use multi_agent_build_system.Prelude.{
  ℕ, ◌+◌, String, ◌≡◌, refl, sym, subst, ◌≢◌, ◌⊎◌, inl, inr, true, false, none, some, List, [], ◌∷◌,
  map, arith, str_eq, str_eq_iff, ◌==◌, if◌then◌else◌, Bool-cases, any, find, is_blank, trim,
  includes, ok, throw,
}
use multi_agent_build_system.Store.Table.{lookup, update, lookup-update_self, insert}
use multi_agent_build_system.Intake.Briefs.{
  BriefState, draft, clarifying, proposed, accepted, bootstrapping, registered, brief_state_rank,
  brief_state_eq, brief_transitions, ProductBrief, presented, ProposalVersion, AcceptanceBinding,
  Desk, governance_changed, brief_key, proposal_key, get_brief, get_proposal, say, in_state,
  move_brief, set_brief_state, supersede, last_version, insert_proposal, is_active_for,
  active_acceptance,
}
use multi_agent_build_system.Intake.Considered.{str_eq_refl, recorded_active}
use multi_agent_build_system.Intake.Accept.{
  FingerprintInput, fingerprint_input, non_people, Decision, accepted_proposal, acceptance_binding,
  record_acceptance, bind_acceptance, check_acceptance, accept_plan, presented_as, present_plan,
}

state_of_rank : ℕ → BriefState
state_of_rank n =
    if n == 0
    then draft
    else if n == 1
    then clarifying
    else if n == 2
    then proposed
    else if n == 3
    then accepted
    else if n == 4
    then bootstrapping
    else registered

state_of_rank_lem : (s : BriefState) → state_of_rank (brief_state_rank s) ≡ s
unfolding state_of_rank
state_of_rank_lem draft = refl
state_of_rank_lem clarifying = refl
state_of_rank_lem proposed = refl
state_of_rank_lem accepted = refl
state_of_rank_lem bootstrapping = refl
state_of_rank_lem registered = refl

brief_state_eq-true : (a b : BriefState) → brief_state_eq a b ≡ true → a ≡ b
brief_state_eq-true a b h =
    let same : brief_state_rank a ≡ brief_state_rank b = ground arith in
    ground (
      arith,
      state_of_rank_lem a,
      state_of_rank_lem b,
      subst (λ n. state_of_rank (brief_state_rank a) ≡ state_of_rank n) same refl,
    )

-- What `setBriefState` leaves where the table of transitions allows it.
unfoldable Placed : BriefState → ProductBrief → Desk → Desk → Type 0
Placed to b d d' =
    (d'.acceptances ≡ d.acceptances)
    × (d'.proposals ≡ d.proposals)
    × (get_brief b.id d' ≡ some (in_state to b))

move_brief-ok :
    (to : BriefState) (b : ProductBrief) (d : Desk)
    → get_brief b.id d ≡ some b
    → any (λ s. brief_state_eq s to) (brief_transitions b.state) ≡ true
    → (d' : Desk) × (move_brief to b d ≡ ok d') × Placed to b d d'
unfolding move_brief get_brief Placed
move_brief-ok to b d at may = elim (Bool-cases (brief_state_eq b.state to)) [
  | inl same ↦
      let e : b.state ≡ to = brief_state_eq-true b.state to same in
      (
        d,
        ground arith,
        (refl, refl, subst (λ s. lookup brief_key b.id d.briefs ≡ some (in_state s b)) e at),
      )
  | inr moves ↦ (
    say "brief.state" b.id (record d { briefs = update brief_key b.id (in_state to) d.briefs }),
    ground arith,
    (refl, refl, lookup-update_self brief_key b.id (in_state to) d.briefs (λ r. refl) at),
  )
]

set_brief_state-ok :
    (to : BriefState) (b : ProductBrief) (d : Desk)
    → get_brief b.id d ≡ some b
    → any (λ s. brief_state_eq s to) (brief_transitions b.state) ≡ true
    → (d' : Desk) × (set_brief_state b.id to d ≡ ok d') × Placed to b d d'
unfolding set_brief_state
set_brief_state-ok to b d at may =
    let (d', moved, placed) = move_brief-ok to b d at may in (d', ground (arith, at, moved), placed)

lookup-superseded :
    (k brief : String) (p : ProposalVersion) (rows : List ProposalVersion)
    → lookup proposal_key k rows ≡ none
    → p.id ≡ k
    → lookup proposal_key k (insert p (map (supersede brief) rows)) ≡ some p
unfolding lookup
lookup-superseded k brief p [] h e = ground (arith, str_eq_iff p.id k)
lookup-superseded k brief p (r ∷ rows) h e =
    let rest : lookup proposal_key k rows ≡ none
        → lookup proposal_key k (insert p (map (supersede brief) rows)) ≡ some p =
      λ g. lookup-superseded k brief p rows g e in
    ground (arith, rest)

abbrev pub shown_proposal :
    (FingerprintInput → String) → ProductBrief → ProposalVersion → Desk → ProposalVersion
shown_proposal digest b p d = record (presented_as digest b p) {
  version = last_version b.id d.proposals + 1;
  state = presented;
}

-- What `present_plan` has put on the desk.
unfoldable pub Presented :
    (FingerprintInput → String) → ProductBrief → ProposalVersion → Desk → Desk → Type 0
unfolding get_proposal get_brief
Presented digest b p d d' =
    (get_brief b.id d' ≡ some (in_state proposed b))
    × (d'.acceptances ≡ d.acceptances)
    × (get_proposal p.id d' ≡ some (shown_proposal digest b p d))

present_plan-Presented :
    (digest : FingerprintInput → String) (b : ProductBrief) (p : ProposalVersion) (d : Desk)
    → get_brief b.id d ≡ some b
    → get_proposal p.id d ≡ none
    → any (λ s. brief_state_eq s proposed) (brief_transitions b.state) ≡ true
    → (d' : Desk) × (present_plan digest b.id p d ≡ ok d') × Presented digest b p d d'
unfolding present_plan insert_proposal Placed Presented get_proposal get_brief
present_plan-Presented digest b p d at fresh may =
    let shown = insert_proposal (presented_as digest b p) d in
    let (d', moved, (kept, rows, there)) = set_brief_state-ok proposed b shown at may in
    (
      d',
      ground (arith, at, moved),
      (
        there,
        kept,
        subst (λ ps. lookup proposal_key p.id ps ≡ some (shown_proposal digest b p d)) (sym rows)
            (lookup-superseded p.id b.id (shown_proposal digest b p d) d.proposals fresh refl),
      ),
    )

find-none :
    (j : String) (rows : List AcceptanceBinding)
    → find (is_active_for j) rows ≡ none
    → any (is_active_for j) rows ≡ false
find-none j [] h = refl
find-none j (a ∷ rows) h = elim (Bool-cases (is_active_for j a)) [
  | inl e ↦ ground arith
  | inr e ↦ let rest = find-none j rows (ground arith) in ground (arith, rest)
]

bind_acceptance-ok :
    (r : Decision) (b : ProductBrief) (p : ProposalVersion) (d : Desk)
    → get_brief b.id d ≡ some b
    → active_acceptance b.id d ≡ none
    → any (λ s. brief_state_eq s accepted) (brief_transitions b.state) ≡ true
    → (d' : Desk) × (bind_acceptance r b p d ≡ ok d')
      × (get_brief b.id d' ≡ some (in_state accepted b))
      × (active_acceptance b.id d' ≡ some (acceptance_binding r b p))
unfolding bind_acceptance record_acceptance get_brief active_acceptance Placed
bind_acceptance-ok r b p d at free may =
    let a = acceptance_binding r b p in
    let left : Desk = say "proposal.accepted" b.id (record d {
      acceptances = insert a d.acceptances;
      proposals = update proposal_key p.id accepted_proposal d.proposals;
    }) in
    let recorded : record_acceptance a d ≡ ok left =
      ground (arith, find-none b.id d.acceptances free) in
    let (d', moved, (kept, rows, there)) = set_brief_state-ok accepted b left at may in
    (
      d',
      ground (arith, free, recorded, moved),
      there,
      recorded_active a d left d' recorded free kept (str_eq_refl b.id),
    )

-- The digests of the proposal as it is presented and as `acceptPlan` reads it back.
abbrev pub given_digest : (FingerprintInput → String) → ProductBrief → ProposalVersion → String
given_digest digest b p = digest (fingerprint_input b p)

abbrev pub stored_digest : (FingerprintInput → String) → ProductBrief → ProposalVersion → String
stored_digest digest b p = digest (fingerprint_input b (record p { summary = trim p.summary }))

check_acceptance-ok :
    (digest : FingerprintInput → String) (lower_case : String → String) (r : Decision)
    (b : ProductBrief) (p : ProposalVersion) (d : Desk)
    → str_eq (stored_digest digest b p) (given_digest digest b p) ≡ true
    → r.fingerprint ≡ given_digest digest b p
    → is_blank r.accepted_by ≡ false
    → includes non_people (lower_case (trim r.accepted_by)) ≡ false
    → check_acceptance digest lower_case r (in_state proposed b) (shown_proposal digest b p d)
      ≡ ok tt
unfolding check_acceptance
check_acceptance-ok digest lower_case r b p d stored same named person =
    let echoed : str_eq (given_digest digest b p) r.fingerprint ≡ true =
      (str_eq_iff _ _).1 (sym same) in
    ground (arith, stored, echoed, named, person, str_eq_refl b.id)

check_acceptance-changed :
    (digest : FingerprintInput → String) (lower_case : String → String) (r : Decision)
    (b : ProductBrief) (p : ProposalVersion) (d : Desk)
    → str_eq (stored_digest digest b p) (given_digest digest b p) ≡ false
    → check_acceptance digest lower_case r (in_state proposed b) (shown_proposal digest b p d)
      ≡ throw governance_changed
unfolding check_acceptance
check_acceptance-changed digest lower_case r b p d stored = ground (arith, stored, str_eq_refl b.id)

-- What becomes of a decision on the desk `shown` where the plan has just been presented.
abbrev pub Decided :
    (FingerprintInput → String)
    → (String → String)
    → Decision
    → ProductBrief
    → ProposalVersion
    → Desk
    → Desk
    → Type 0
Decided digest lower_case r b p d shown =
    ((stored_digest digest b p ≡ given_digest digest b p)
      × ((left : Desk) × (accept_plan digest lower_case r shown ≡ ok left)
          × (get_brief b.id left ≡ some (in_state accepted b))
          × (active_acceptance b.id left
              ≡ some (acceptance_binding r b (shown_proposal digest b p d)))))
    ⊎ ((stored_digest digest b p ≢ given_digest digest b p)
        × (accept_plan digest lower_case r shown ≡ throw governance_changed))

-- Where a brief has no active acceptance and may be proposed, to present a plan under a fresh id succeeds.
-- A decision that names the brief and that proposal, echoes the fingerprint that was recorded, and comes from
-- a person whose name is neither blank nor one of the names of agents then meets one of two ends. Where the
-- digest of the proposal with its summary trimmed is the one with the summary as it was given, the decision
-- is accepted: the brief is accepted, and its active acceptance is bound to the proposal as it was stored.
-- Where the digests differ, the decision is refused as a change of governance.
pub present_plan-accept_plan :
    (digest : FingerprintInput → String) (lower_case : String → String) (r : Decision)
    (b : ProductBrief) (p : ProposalVersion) (d : Desk)
    → get_brief b.id d ≡ some b
    → get_proposal p.id d ≡ none
    → active_acceptance b.id d ≡ none
    → any (λ s. brief_state_eq s proposed) (brief_transitions b.state) ≡ true
    → r.brief ≡ b.id
    → r.proposal_id ≡ p.id
    → r.fingerprint ≡ given_digest digest b p
    → is_blank r.accepted_by ≡ false
    → includes non_people (lower_case (trim r.accepted_by)) ≡ false
    → (shown : Desk) × (present_plan digest b.id p d ≡ ok shown)
      × Decided digest lower_case r b p d shown
unfolding accept_plan active_acceptance Presented
present_plan-accept_plan digest lower_case r b p d at fresh free may brief proposal same named
      person =
    let (shown, presents_it, (there, kept, found)) =
      present_plan-Presented digest b p d at fresh may in
    let still_free : active_acceptance b.id shown ≡ none =
      subst (λ as'. find (is_active_for b.id) as' ≡ none) (sym kept) free in
    let by_brief : get_brief r.brief shown ≡ some (in_state proposed b) =
      subst (λ k. get_brief k shown ≡ some (in_state proposed b)) (sym brief) there in
    let by_id : get_proposal r.proposal_id shown ≡ some (shown_proposal digest b p d) =
      subst (λ k. get_proposal k shown ≡ some (shown_proposal digest b p d)) (sym proposal) found in
    let digests = str_eq_iff (stored_digest digest b p) (given_digest digest b p) in
    let (left, accepts_it, after, active) =
      bind_acceptance-ok r (in_state proposed b) (shown_proposal digest b p d) shown there
        still_free refl in
    (
      shown,
      presents_it,
      elim (Bool-cases (str_eq (stored_digest digest b p) (given_digest digest b p))) [
        | inl stored ↦
            let checked = check_acceptance-ok digest lower_case r b p d stored same named person in
            inl (
              digests.0 stored,
              (left, rw by_brief (rw by_id (rw checked accepts_it)), after, active),
            )
        | inr changed ↦
            let refused = check_acceptance-changed digest lower_case r b p d changed in
            inr (λ e. ground (arith, digests, e, changed), rw by_brief (rw by_id (rw refused refl)))
      ],
    )
