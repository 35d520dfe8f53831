-- ===== src/Intake/Considered.antt =====
-- src/intake/service.ts: what `acceptPlan` has checked when it accepts, and what it leaves.
use multi_agent_build_system.Prelude.{
  String, ◌≡◌, refl, sym, subst, inl, inr, Bool, true, false, ◌||◌, not, Option, none, some, List,
  [], ◌∷◌, arith, str_eq, str_eq_iff, ◌==◌, if◌then◌else◌, Bool-cases, find, is_blank, trim,
  includes, Outcome, ok, throw, ◌>>=◌, ◌>>◌, throw_if,
}
use multi_agent_build_system.Intake.Current.{set_brief_state-Spares}
use multi_agent_build_system.Store.Table.{insert}
use multi_agent_build_system.Intake.Briefs.{
  accepted, ProductBrief, ProposalVersion, AcceptanceBinding, Desk, IntakeError, unknown_brief,
  unknown_proposal, already_accepted, get_brief, get_proposal, found_or, set_brief_state,
  is_active_for, active_acceptance,
}
use multi_agent_build_system.Intake.Accept.{
  FingerprintInput, fingerprint_input, non_people, Decision, is_withdrawn, acceptance_binding,
  record_acceptance, is_same_decision, bind_acceptance, check_acceptance, accept_plan,
}

-- The guards of `accept_plan` in its order, for any conditions.
guards_pass :
    (c c2 c3 c4 c5 c6 c7 : Bool) (e e2 e3 e4 e5 e6 e7 : IntakeError)
    → (throw_if c e
        >> throw_if c2 e2
        >> throw_if c3 e3
        >> throw_if c4 e4
        >> throw_if c5 e5
        >> throw_if c6 e6
        >> throw_if c7 e7)
      ≡ ok tt
    → (c ≡ false)
      × (c2 ≡ false)
      × (c3 ≡ false)
      × (c4 ≡ false)
      × (c5 ≡ false)
      × (c6 ≡ false)
      × (c7 ≡ false)
guards_pass c c2 c3 c4 c5 c6 c7 e e2 e3 e4 e5 e6 e7 h = ground arith

pub str_eq_refl : (x : String) → str_eq x x ≡ true
str_eq_refl x = (str_eq_iff x x).1 refl

find-insert :
    (j : String) (a : AcceptanceBinding) (rows : List AcceptanceBinding)
    → find (is_active_for j) rows ≡ none
    → is_active_for j a ≡ true
    → find (is_active_for j) (insert a rows) ≡ some a
find-insert j a [] h e = ground arith
find-insert j a (r ∷ rows) h e = elim (Bool-cases (is_active_for j r)) [
  | inl same ↦ ground arith
  | inr differs ↦ let rest = find-insert j a rows (ground arith) e in ground (arith, rest)
]

pub recorded_active :
    (a : AcceptanceBinding) (d x d' : Desk)
    → record_acceptance a d ≡ ok x
    → active_acceptance a.brief_id d ≡ none
    → d'.acceptances ≡ x.acceptances
    → is_active_for a.brief_id a ≡ true
    → active_acceptance a.brief_id d' ≡ some a
unfolding record_acceptance active_acceptance
recorded_active a d x d' h free kept own =
    let rows : x.acceptances ≡ insert a d.acceptances = ground arith in
    let inserted_rows : d'.acceptances ≡ insert a d.acceptances = ground (arith, kept, rows) in
    subst (λ as'. find (is_active_for a.brief_id) as' ≡ some a) (sym inserted_rows)
      (find-insert a.brief_id a d.acceptances free own)

module _ (digest : FingerprintInput → String) (lower_case : String → String) where
  -- The user's decision is about this proposal as it is stored, for this brief as it is now.
  unfoldable pub IsAcceptable : Decision → ProductBrief → ProposalVersion → Type 0
  IsAcceptable r b p =
      (p.brief_id ≡ b.id)
      × (digest (fingerprint_input b p) ≡ p.fingerprint)
      × (is_blank r.accepted_by ≡ false)
      × (includes non_people (lower_case (trim r.accepted_by)) ≡ false)
      × (p.fingerprint ≡ r.fingerprint)
      × (is_withdrawn p.state ≡ false)
      × (p.brief_version ≡ b.version)
      × (p.valid ≡ true)

  pub check_acceptance-IsAcceptable :
      (r : Decision) (b : ProductBrief) (p : ProposalVersion)
      → check_acceptance digest lower_case r b p ≡ ok tt
      → IsAcceptable r b p
  unfolding check_acceptance IsAcceptable
  check_acceptance-IsAcceptable r b p h =
      let (brief, same, person, shown, open_still, version, good) =
        guards_pass (not (str_eq p.brief_id b.id))
          (not (str_eq (digest (fingerprint_input b p)) p.fingerprint))
          (is_blank r.accepted_by || includes non_people (lower_case (trim r.accepted_by)))
          (not (str_eq p.fingerprint r.fingerprint)) (is_withdrawn p.state)
          (not (p.brief_version == b.version)) (not p.valid)
          (IntakeError.unknown_proposal r.proposal_id) IntakeError.governance_changed
          IntakeError.not_a_person IntakeError.proposal_changed
          (IntakeError.proposal_over p.version)
          (IntakeError.built_from_other_version p.brief_version b.version) IntakeError.not_valid
          h in
      (
        (str_eq_iff p.brief_id b.id).0 (ground (arith, brief)),
        (str_eq_iff (digest (fingerprint_input b p)) p.fingerprint).0 (ground (arith, same)),
        ground (arith, person),
        ground (arith, person),
        (str_eq_iff p.fingerprint r.fingerprint).0 (ground (arith, shown)),
        open_still,
        ground (arith, version),
        ground (arith, good),
      )

  pub check_acceptance-version :
      (r : Decision) (b : ProductBrief) (p : ProposalVersion)
      → check_acceptance digest lower_case r b p ≡ ok tt
      → p.brief_version ≡ b.version
  unfolding IsAcceptable
  check_acceptance-version r b p h =
      let (_, _, _, _, _, _, version, _) = check_acceptance-IsAcceptable r b p h in version

  -- What an accepted decision found, and the acceptance that stands afterwards.
  unfoldable pub IsConsidered : Decision → Desk → Desk → Type 0
  unfolding IsAcceptable get_brief get_proposal active_acceptance
  IsConsidered r d d' =
      (b : ProductBrief) × (p : ProposalVersion) × (a : AcceptanceBinding) × (get_brief r.brief d
        ≡ some b)
      × (get_proposal r.proposal_id d ≡ some p)
      × IsAcceptable r b p
      × (active_acceptance b.id d' ≡ some a)
      × (is_same_decision r p a ≡ true)

  bind_acceptance-active :
      (r : Decision) (b : ProductBrief) (p : ProposalVersion) (d : Desk) {d' : Desk}
      → bind_acceptance r b p d ≡ ok d'
      → (a : AcceptanceBinding) × (active_acceptance b.id d' ≡ some a)
        × (is_same_decision r p a ≡ true)
  unfolding bind_acceptance record_acceptance
  bind_acceptance-active r b p d {d'} h = go (active_acceptance b.id d) refl h
    where
      bound :
          (o : Outcome IntakeError Desk)
          → record_acceptance (acceptance_binding r b p) d ≡ o
          → active_acceptance b.id d ≡ none
          → (o >>= λ x. set_brief_state b.id accepted x) ≡ ok d'
          → (a : AcceptanceBinding) × (active_acceptance b.id d' ≡ some a)
            × (is_same_decision r p a ≡ true)
      bound (throw e) at free q = cc
      bound (ok x) at free q =
          let kept = (set_brief_state-Spares b.id accepted x {d' = d'} q).0 in
          (
            acceptance_binding r b p,
            recorded_active (acceptance_binding r b p) d x d' at free kept (str_eq_refl b.id),
            ground (
              arith,
              str_eq_refl p.id,
              str_eq_refl p.fingerprint,
              str_eq_refl (trim r.accepted_by),
            ),
          )

      go :
          (o : Option AcceptanceBinding)
          → active_acceptance b.id d ≡ o
          → elim o as (λ _. Outcome IntakeError Desk) [
            | some a ↦ if is_same_decision r p a then ok d else throw already_accepted
            | none ↦ record_acceptance (acceptance_binding r b p) d >>= λ x.
                set_brief_state b.id accepted x
          ]
            ≡ ok d'
          → (a : AcceptanceBinding) × (active_acceptance b.id d' ≡ some a)
            × (is_same_decision r p a ≡ true)
      go none at e = bound (record_acceptance (acceptance_binding r b p) d) refl at e
      go (some a) at e =
          let same : d ≡ d' = ground arith in
          (a, subst (λ x. active_acceptance b.id x ≡ some a) same at, ground arith)

  -- An acceptance that succeeds found the brief and the proposal, and IsAcceptable of them: the proposal is
  -- the brief's, its fingerprint is the digest of its fields and of the brief as it is now and is the one
  -- the caller echoed, the person's name is not blank and, trimmed and in lower case, is not one of the
  -- names of agents, and the proposal is not superseded or invalidated, is valid and was built from the
  -- brief's version. An active acceptance of the brief for that proposal, fingerprint and person is there
  -- afterwards.
  pub accept_plan-IsConsidered :
      (r : Decision) (d : Desk) {d' : Desk}
      → accept_plan digest lower_case r d ≡ ok d'
      → IsConsidered r d d'
  unfolding accept_plan IsConsidered
  accept_plan-IsConsidered r d {d'} h =
      go (get_brief r.brief d) (get_proposal r.proposal_id d) refl refl h
    where
      checked :
          (b : ProductBrief) (p : ProposalVersion) (o : Outcome IntakeError (Unit {0}))
          → get_brief r.brief d ≡ some b
          → get_proposal r.proposal_id d ≡ some p
          → check_acceptance digest lower_case r b p ≡ o
          → (o >> bind_acceptance r b p d) ≡ ok d'
          → IsConsidered r d d'
      checked b p (throw e) at found c q = cc
      checked b p (ok tt) at found c q =
          let (a, active, same) = bind_acceptance-active r b p d {d' = d'} q in
          (b, p, a, at, found, check_acceptance-IsAcceptable r b p c, active, same)

      go :
          (ob : Option ProductBrief) (op : Option ProposalVersion)
          → get_brief r.brief d ≡ ob
          → get_proposal r.proposal_id d ≡ op
          → (found_or ob (unknown_brief r.brief) >>= λ b.
              found_or op (unknown_proposal r.proposal_id) >>= λ p.
              check_acceptance digest lower_case r b p >> bind_acceptance r b p d)
            ≡ ok d'
          → IsConsidered r d d'
      go none op at found e = cc
      go (some b) none at found e = cc
      go (some b) (some p) at found e =
          checked b p (check_acceptance digest lower_case r b p) at found refl e
