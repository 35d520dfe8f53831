-- ===== src/Examples/Desks.antt =====
-- Briefs, proposals and acceptances at concrete inputs.
use multi_agent_build_system.Prelude.{
  String, ◌≡◌, refl, true, none, some, List, [], ◌∷◌, is_blank, trim, unique_beside, Outcome, ok,
  throw,
}
use multi_agent_build_system.Examples.Rows.{database}
use multi_agent_build_system.Examples.Plans.{sample_plan}
use multi_agent_build_system.Store.Table.{lookup, update}
use multi_agent_build_system.Store.Tasks.{get_task, transition}
use multi_agent_build_system.Task.{can_transition}
use multi_agent_build_system.Intake.Briefs.{
  proposed, accepted, ProductBrief, presented, ProposalVersion, AcceptanceBinding, Desk,
  IntakeError, governance_changed, get_brief, get_proposal, move_brief, set_brief_state,
  last_version, insert_proposal, active_acceptance, invalidate_acceptance,
}
use multi_agent_build_system.Intake.Update.{
  cancel_task, cancel_tasks, submitted_ids, reopened_states, reopen_brief, cleared, close_submitted,
  written, update_brief,
}
use multi_agent_build_system.Intake.Revised.{update_brief-active_acceptance}
use multi_agent_build_system.Intake.Accept.{
  FingerprintInput, Decision, accepted_proposal, acceptance_binding, record_acceptance,
  bind_acceptance, check_acceptance, accept_plan, present_plan,
}
use multi_agent_build_system.Intake.Current.{version_of, Sole, IsSettled}
use multi_agent_build_system.Intake.Considered.{IsConsidered, accept_plan-IsConsidered}
use multi_agent_build_system.Intake.Accepts.{Decided, present_plan-accept_plan}
use multi_agent_build_system.Intake.Bound.{
  IntakeCall, accepts, presents, updates, intake_all, intake_all-IsSettled,
}

-- A digest that tells the summaries apart, and names in lower case.
abbrev summary_of : FingerprintInput → String
summary_of i = i.summary

abbrev same_name : String → String
same_name s = s

abbrev brief : ProductBrief
brief = record {
  id = "brief-1";
  state = proposed;
  project_type = none;
  review_choice = none;
  governance_decision_id = none;
  governance_version = 0;
  version = 3;
}

abbrev proposal : ProposalVersion
proposal = record {
  id = "proposal-1";
  brief_id = "brief-1";
  version = 1;
  state = presented;
  summary = "a shop";
  requirements = [];
  plan = sample_plan;
  valid = true;
  fingerprint = "a shop";
  brief_version = 3;
}

abbrev waiting : Desk
waiting = record {
  briefs = brief ∷ [];
  proposals = proposal ∷ [];
  acceptances = [];
  submissions =
      record { brief_id = "brief-1"; proposal_id = "proposal-1"; task_ids = "task-1" ∷ [] } ∷ [];
  db = database;
  conversation = [];
}

abbrev decision : Decision
decision = record {
  acceptance_id = "acceptance-1";
  brief = "brief-1";
  proposal_id = "proposal-1";
  fingerprint = "a shop";
  accepted_by = " ada ";
}

abbrev accepted_binding : AcceptanceBinding
accepted_binding = acceptance_binding decision brief proposal

abbrev decided : Desk
decided = record waiting {
  briefs = record brief { state = accepted } ∷ [];
  proposals = accepted_proposal proposal ∷ [];
  acceptances = accepted_binding ∷ [];
  conversation = ("brief.state", "brief-1") ∷ ("proposal.accepted", "brief-1") ∷ [];
}

waiting_accepted : accept_plan summary_of same_name decision waiting ≡ ok decided
unfolding accept_plan check_acceptance bind_acceptance record_acceptance set_brief_state move_brief
    get_brief get_proposal active_acceptance lookup update is_blank trim
waiting_accepted = refl

accept_plan-IsConsidered_example : IsConsidered summary_of same_name decision waiting decided
accept_plan-IsConsidered_example =
    accept_plan-IsConsidered summary_of same_name decision waiting {d' = decided} waiting_accepted

decided-IsSettled : IsSettled decided
unfolding IsSettled Sole lookup
decided-IsSettled = ((λ e. refl, tt), (λ e. refl, tt))

abbrev calls : List IntakeCall
calls =
    updates "brief-1" 3 "another audience" ("audience" ∷ [])
    ∷ presents "brief-1" proposal
    ∷ accepts decision
    ∷ []

intake_all-IsSettled_example : IsSettled (intake_all summary_of same_name calls decided)
intake_all-IsSettled_example =
    intake_all-IsSettled summary_of same_name calls decided decided-IsSettled

abbrev revised : Outcome IntakeError Desk
revised = update_brief "brief-1" 3 "another audience" ("audience" ∷ []) decided

abbrev desk_of : Outcome IntakeError Desk → Desk
desk_of (ok d) = d
desk_of (throw e) = waiting

revised_ok : revised ≡ ok (desk_of revised)
unfolding update_brief set_brief_state get_brief move_brief invalidate_acceptance close_submitted
    cancel_tasks cancel_task get_task transition lookup update can_transition is_blank unique_beside
    reopen_brief written cleared submitted_ids reopened_states
revised_ok = refl

update_brief-active_acceptance_example :
    (b : ProductBrief) × (get_brief "brief-1" decided ≡ some b)
    × (b.version ≡ 3)
    × (version_of "brief-1" (desk_of revised).briefs ≡ some 4)
    × (active_acceptance "brief-1" (desk_of revised) ≡ none)
update_brief-active_acceptance_example =
    update_brief-active_acceptance "brief-1" 3 "another audience" ("audience" ∷ []) decided
      {d' = desk_of revised} revised_ok

abbrev other_proposal : ProposalVersion
other_proposal = record proposal { id = "proposal-2" }

abbrev other_decision : Decision
other_decision = record decision { proposal_id = "proposal-2" }

-- The summary ends in a space, and the digest keeps it: the decision is refused.
abbrev padded_proposal : ProposalVersion
padded_proposal = record other_proposal { summary = "a shop " }

abbrev padded_decision : Decision
padded_decision = record other_decision { fingerprint = "a shop " }

present_plan-accept_plan_example :
    (shown : Desk) × (present_plan summary_of "brief-1" padded_proposal waiting ≡ ok shown)
    × Decided summary_of same_name padded_decision brief padded_proposal waiting shown
unfolding get_brief get_proposal active_acceptance lookup is_blank trim
present_plan-accept_plan_example =
    present_plan-accept_plan summary_of same_name padded_decision brief padded_proposal waiting refl
      refl refl refl refl refl refl refl refl

padded_refused :
    elim (present_plan summary_of "brief-1" padded_proposal waiting)
      as (λ _. Outcome IntakeError Desk) [
        | ok shown ↦ accept_plan summary_of same_name padded_decision shown
        | throw e ↦ throw e
      ]
    ≡ throw governance_changed
unfolding accept_plan check_acceptance bind_acceptance record_acceptance set_brief_state move_brief
    get_brief get_proposal active_acceptance lookup update is_blank trim present_plan
    insert_proposal last_version
padded_refused = refl
