-- ===== src/Intake/Accept.antt =====
-- src/intake/service.ts: a validated plan is presented, and the user's decision accepts one proposal. The
-- acceptance is modelled from where the governance of the brief has been brought up to date and found ready.
use multi_agent_build_system.Prelude.{
  ℕ, String, Bool, true, false, ◌&&◌, ◌||◌, not, Option, none, some, List, [], ◌∷◌, str_eq, ◌==◌,
  if◌then◌else◌, any, is_blank, trim, includes, Outcome, ok, throw, ◌>>=◌, ◌>>◌, throw_if,
}
use multi_agent_build_system.Plan.Draft.{ExecutionPlan}
use multi_agent_build_system.Governance.{ProjectType, ReviewChoice}
use multi_agent_build_system.Store.Table.{update, insert}
use multi_agent_build_system.Intake.Briefs.{
  proposed, accepted, ProductBrief, ProposalRequirement, ProposalState, taken, superseded,
  invalidated, ProposalVersion, AcceptanceBinding, Desk, IntakeError, proposal_key, get_brief,
  get_proposal, found_or, say, set_brief_state, insert_proposal, is_active_for, active_acceptance,
}

-- The fields that `proposalFingerprint` hashes, in its order.
pub record FingerprintInput : Type 0 where
  pub brief_id : String
  pub brief_version : ℕ
  pub governance_decision_id : Option String
  pub governance_version : ℕ
  pub project_type : Option ProjectType
  pub review_choice : Option ReviewChoice
  pub summary : String
  pub requirements : List ProposalRequirement
  pub plan : ExecutionPlan

abbrev pub fingerprint_input : ProductBrief → ProposalVersion → FingerprintInput
fingerprint_input b p = record {
  brief_id = b.id;
  brief_version = b.version;
  governance_decision_id = b.governance_decision_id;
  governance_version = b.governance_version;
  project_type = b.project_type;
  review_choice = b.review_choice;
  summary = p.summary;
  requirements = p.requirements;
  plan = p.plan;
}

abbrev pub non_people : List String
non_people = "agent" ∷ "assistant" ∷ "model" ∷ "system" ∷ "pi" ∷ "pi-conversation" ∷ []

pub record Decision : Type 0 where
  pub acceptance_id : String
  pub brief : String
  pub proposal_id : String
  pub fingerprint : String
  pub accepted_by : String

abbrev pub is_withdrawn : ProposalState → Bool
is_withdrawn superseded = true
is_withdrawn invalidated = true
is_withdrawn _ = false

abbrev pub accepted_proposal : ProposalVersion → ProposalVersion
accepted_proposal p = record p { state = taken }

abbrev pub acceptance_binding : Decision → ProductBrief → ProposalVersion → AcceptanceBinding
acceptance_binding r b p = record {
  id = r.acceptance_id;
  brief_id = b.id;
  proposal_id = p.id;
  proposal_version = p.version;
  proposal_fingerprint = p.fingerprint;
  brief_version = p.brief_version;
  accepted_by = trim r.accepted_by;
  is_active = true;
}

-- `recordAcceptance`, under the unique index on the active acceptances of a brief
unfoldable pub record_acceptance : AcceptanceBinding → Desk → Outcome IntakeError Desk
record_acceptance a d =
    if any (is_active_for a.brief_id) d.acceptances
    then throw IntakeError.constraint_violation
    else ok (
        say "proposal.accepted" a.brief_id (record d {
          acceptances = insert a d.acceptances;
          proposals = update proposal_key a.proposal_id accepted_proposal d.proposals;
        }))

abbrev pub is_same_decision : Decision → ProposalVersion → AcceptanceBinding → Bool
is_same_decision r p a =
    str_eq a.proposal_id p.id
    && str_eq a.proposal_fingerprint p.fingerprint
    && str_eq a.accepted_by (trim r.accepted_by)

unfoldable pub bind_acceptance :
    Decision → ProductBrief → ProposalVersion → Desk → Outcome IntakeError Desk
unfolding active_acceptance record_acceptance
bind_acceptance r b p d = elim (active_acceptance b.id d) [
  | some a ↦ if is_same_decision r p a then ok d else throw IntakeError.already_accepted
  | none ↦ record_acceptance (acceptance_binding r b p) d >>= λ d'. set_brief_state b.id accepted d'
]

-- `toLowerCase` of the language, and the digest of `createHash`, are parameters.
module _ (digest : FingerprintInput → String) (lower_case : String → String) where
  unfoldable pub check_acceptance :
      Decision → ProductBrief → ProposalVersion → Outcome IntakeError (Unit {0})
  check_acceptance r b p =
      throw_if (not (str_eq p.brief_id b.id)) (IntakeError.unknown_proposal r.proposal_id)
      >> throw_if (not (str_eq (digest (fingerprint_input b p)) p.fingerprint))
          IntakeError.governance_changed
      >> throw_if (is_blank r.accepted_by || includes non_people (lower_case (trim r.accepted_by)))
          IntakeError.not_a_person
      >> throw_if (not (str_eq p.fingerprint r.fingerprint)) IntakeError.proposal_changed
      >> throw_if (is_withdrawn p.state) (IntakeError.proposal_over p.version)
      >> throw_if (not (p.brief_version == b.version))
          (IntakeError.built_from_other_version p.brief_version b.version)
      >> throw_if (not p.valid) IntakeError.not_valid

  -- `acceptPlan`, from the look-up of the proposal
  unfoldable pub accept_plan : Decision → Desk → Outcome IntakeError Desk
  unfolding get_brief get_proposal check_acceptance bind_acceptance
  accept_plan r d = found_or (get_brief r.brief d) (IntakeError.unknown_brief r.brief) >>= λ b.
      found_or (get_proposal r.proposal_id d) (IntakeError.unknown_proposal r.proposal_id) >>= λ p.
      check_acceptance r b p >> bind_acceptance r b p d

module _ (digest : FingerprintInput → String) where
  -- The fingerprint is that of the summary as it was given, and the row holds it trimmed.
  abbrev pub presented_as : ProductBrief → ProposalVersion → ProposalVersion
  presented_as b p = record p {
    brief_id = b.id;
    brief_version = b.version;
    summary = trim p.summary;
    valid = true;
    fingerprint = digest (fingerprint_input b p);
  }

  -- The transaction of `proposePlan`, for a proposal whose plan has been validated.
  unfoldable pub present_plan : String → ProposalVersion → Desk → Outcome IntakeError Desk
  unfolding get_brief insert_proposal
  present_plan id p d = found_or (get_brief id d) (IntakeError.unknown_brief id) >>= λ b.
      set_brief_state b.id proposed (insert_proposal (presented_as b p) d)
