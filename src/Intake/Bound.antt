-- ===== src/Intake/Bound.antt =====
-- src/intake/store.ts and service.ts: the calls that write briefs, proposals and acceptances, in any order.
use multi_agent_build_system.Prelude.{
  ℕ, String, ◌≡◌, refl, sym, subst, inl, inr, Option, none, some, List, [], ◌∷◌, arith,
  if◌then◌else◌, Bool-cases, any, All, Outcome, ok, throw, ◌>>=◌, ◌>>◌,
}
use multi_agent_build_system.Store.Table.{lookup-key, insert, All-insert}
use multi_agent_build_system.Intake.Briefs.{
  BriefState, proposed, accepted, ProductBrief, ProposalVersion, AcceptanceBinding, Desk,
  IntakeError, unknown_brief, unknown_proposal, already_accepted, brief_key, get_brief,
  get_proposal, found_or, set_brief_state, insert_proposal, is_active_for, active_acceptance,
}
use multi_agent_build_system.Intake.Accept.{
  FingerprintInput, Decision, acceptance_binding, record_acceptance, is_same_decision,
  bind_acceptance, check_acceptance, accept_plan, presented_as, present_plan,
}
use multi_agent_build_system.Intake.Considered.{check_acceptance-version}
use multi_agent_build_system.Intake.Update.{update_brief}
use multi_agent_build_system.Intake.Revised.{update_brief-IsSettled}
use multi_agent_build_system.Intake.Current.{
  version_of, Current, Sole, IsSettled, Spares-IsSettled, set_brief_state-Spares, Sole-insert,
}

record_acceptance-IsSettled :
    (a : AcceptanceBinding) (d : Desk) {d' : Desk}
    → Current d.briefs a
    → record_acceptance a d ≡ ok d'
    → IsSettled d
    → IsSettled d'
unfolding record_acceptance IsSettled
record_acceptance-IsSettled a d {d'} now h (f, s) =
    elim (Bool-cases (any (is_active_for a.brief_id) d.acceptances)) [
      | inl e ↦ ground arith
      | inr e ↦
          let rows : d'.acceptances ≡ insert a d.acceptances = ground arith in
          let briefs : d'.briefs ≡ d.briefs = ground arith in
          (
            subst (λ bs. All (Current bs) d'.acceptances) (sym briefs)
                (subst (λ as'. All (Current d.briefs) as') (sym rows)
                  (All-insert (Current d.briefs) d.acceptances f now)),
            subst Sole (sym rows) (Sole-insert a d.acceptances e s),
          )
    ]

pub bind_acceptance-IsSettled :
    (r : Decision) (b : ProductBrief) (p : ProposalVersion) (d : Desk) {d' : Desk}
    → version_of b.id d.briefs ≡ some p.brief_version
    → bind_acceptance r b p d ≡ ok d'
    → IsSettled d
    → IsSettled d'
unfolding bind_acceptance
bind_acceptance-IsSettled r b p d {d'} now h s = go (active_acceptance b.id d) h
  where
    bound :
        (o : Outcome IntakeError Desk)
        → record_acceptance (acceptance_binding r b p) d ≡ o
        → (o >>= λ x. set_brief_state b.id accepted x) ≡ ok d'
        → IsSettled d'
    bound (throw e) at q = cc
    bound (ok x) at q =
        Spares-IsSettled x d' (set_brief_state-Spares b.id accepted x {d' = d'} q)
          (record_acceptance-IsSettled (acceptance_binding r b p) d {d' = x} (λ e. now) at s)

    go :
        (o : Option AcceptanceBinding)
        → elim o as (λ _. Outcome IntakeError Desk) [
          | some a ↦ if is_same_decision r p a then ok d else throw already_accepted
          | none ↦ record_acceptance (acceptance_binding r b p) d >>= λ x.
              set_brief_state b.id accepted x
        ]
          ≡ ok d'
        → IsSettled d'
    go none e = bound (record_acceptance (acceptance_binding r b p) d) refl e
    go (some a) e = let same : d ≡ d' = ground arith in subst IsSettled same s

pub data IntakeCall : Type 0 where
  accepts : Decision → IntakeCall
  presents : String → ProposalVersion → IntakeCall
  updates : String → ℕ → String → List String → IntakeCall
  moves : String → BriefState → IntakeCall

module _ (digest : FingerprintInput → String) (lower_case : String → String) where
  unfoldable pub intake_step : IntakeCall → Desk → Outcome IntakeError Desk
  unfolding accept_plan present_plan update_brief set_brief_state
  intake_step (accepts r) d = accept_plan digest lower_case r d
  intake_step (presents id p) d = present_plan digest id p d
  intake_step (updates id expected summary changed) d = update_brief id expected summary changed d
  intake_step (moves id to) d = set_brief_state id to d

  -- A transaction that throws is rolled back.
  unfoldable pub intake_all : List IntakeCall → Desk → Desk
  unfolding intake_step
  intake_all [] d = d
  intake_all (c ∷ cs) d = intake_all cs (elim (intake_step c d) [ ok d' ↦ d' | throw e ↦ d ])

  -- The acceptance that is recorded names the version that `check_acceptance` has compared.
  accept_plan-IsSettled :
      (r : Decision) (d : Desk) {d' : Desk}
      → accept_plan digest lower_case r d ≡ ok d'
      → IsSettled d
      → IsSettled d'
  unfolding accept_plan get_brief
  accept_plan-IsSettled r d {d'} h s =
      go (get_brief r.brief d) (get_proposal r.proposal_id d) refl h
    where
      checked :
          (b : ProductBrief) (p : ProposalVersion) (o : Outcome IntakeError (Unit {0}))
          → get_brief r.brief d ≡ some b
          → check_acceptance digest lower_case r b p ≡ o
          → (o >> bind_acceptance r b p d) ≡ ok d'
          → IsSettled d'
      checked b p (throw e) at c q = cc
      checked b p (ok tt) at c q =
          let version : p.brief_version ≡ b.version =
            check_acceptance-version digest lower_case r b p c in
          let key : b.id ≡ r.brief = lookup-key brief_key r.brief d.briefs at in
          let now : version_of b.id d.briefs ≡ some p.brief_version =
            subst (λ k. version_of k d.briefs ≡ some p.brief_version) (sym key)
              (ground (arith, at, version)) in
          bind_acceptance-IsSettled r b p d {d' = d'} now q s

      go :
          (ob : Option ProductBrief) (op : Option ProposalVersion)
          → get_brief r.brief d ≡ ob
          → (found_or ob (unknown_brief r.brief) >>= λ b.
              found_or op (unknown_proposal r.proposal_id) >>= λ p.
              check_acceptance digest lower_case r b p >> bind_acceptance r b p d)
            ≡ ok d'
          → IsSettled d'
      go none op at e = cc
      go (some b) none at e = cc
      go (some b) (some p) at e = checked b p (check_acceptance digest lower_case r b p) at refl e

  present_plan-IsSettled :
      (id : String) (p : ProposalVersion) (d : Desk) {d' : Desk}
      → present_plan digest id p d ≡ ok d'
      → IsSettled d
      → IsSettled d'
  unfolding present_plan insert_proposal
  present_plan-IsSettled id p d {d'} h s = go (get_brief id d) h
    where
      go :
          (o : Option ProductBrief)
          → (found_or o (unknown_brief id) >>= λ b.
              set_brief_state b.id proposed (insert_proposal (presented_as digest b p) d))
            ≡ ok d'
          → IsSettled d'
      go none e = cc
      go (some b) e =
          Spares-IsSettled d d'
            (set_brief_state-Spares b.id proposed (insert_proposal (presented_as digest b p) d)
              {d' = d'} e)
            s

  intake_step-IsSettled :
      (c : IntakeCall) (d : Desk) {d' : Desk} → intake_step c d ≡ ok d' → IsSettled d → IsSettled d'
  unfolding intake_step
  intake_step-IsSettled (accepts r) d {d'} h s = accept_plan-IsSettled r d {d' = d'} h s
  intake_step-IsSettled (presents id p) d {d'} h s = present_plan-IsSettled id p d {d' = d'} h s
  intake_step-IsSettled (updates id n summary changed) d {d'} h s =
      update_brief-IsSettled id n summary changed d {d' = d'} h s
  intake_step-IsSettled (moves id to) d {d'} h s =
      Spares-IsSettled d d' (set_brief_state-Spares id to d {d' = d'} h) s

  -- After any sequence of calls that present, accept, update and move, on a desk where it holds, an active
  -- acceptance names the version its brief has now, and a brief has one active acceptance at most.
  pub intake_all-IsSettled :
      (cs : List IntakeCall) (d : Desk) → IsSettled d → IsSettled (intake_all cs d)
  unfolding intake_all
  intake_all-IsSettled [] d s = s
  intake_all-IsSettled (c ∷ cs) d s = intake_all-IsSettled cs _ (go (intake_step c d) refl)
    where
      go :
          (o : Outcome IntakeError Desk)
          → intake_step c d ≡ o
          → IsSettled (elim o as (λ _. Desk) [ ok d' ↦ d' | throw e ↦ d ])
      go (ok d') e = intake_step-IsSettled c d {d' = d'} e s
      go (throw e) q = s
