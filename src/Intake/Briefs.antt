-- ===== src/Intake/Briefs.antt =====
-- src/intake/types.ts and src/intake/store.ts: briefs, proposals and acceptances. The columns that hold the
-- text of a brief are left out, with their history, and of `conversation_events` the kind and the brief
-- are kept.
use multi_agent_build_system.Prelude.{
  ℕ, ◌+◌, max, String, Bool, true, false, ◌&&◌, Option, none, some, List, [], ◌∷◌, ◌++◌, map,
  str_eq, ◌==◌, if◌then◌else◌, any, find, filter, includes, Outcome, ok, throw, ◌>>=◌,
}
use multi_agent_build_system.Plan.Draft.{ExecutionPlan}
use multi_agent_build_system.Governance.{ProjectType, ReviewChoice}
use multi_agent_build_system.Store.{Db, StoreError}
use multi_agent_build_system.Store.Table.{lookup, update, insert}

-- `BRIEF_STATES`
pub data BriefState : Type 0 where
  draft clarifying proposed accepted bootstrapping registered : BriefState

abbrev pub brief_state_rank : BriefState → ℕ
brief_state_rank draft = 0
brief_state_rank clarifying = 1
brief_state_rank proposed = 2
brief_state_rank accepted = 3
brief_state_rank bootstrapping = 4
brief_state_rank registered = 5

abbrev pub brief_state_eq : BriefState → BriefState → Bool
brief_state_eq a b = brief_state_rank a == brief_state_rank b

-- The row of a state in `BRIEF_TRANSITIONS`.
abbrev pub brief_transitions : BriefState → List BriefState
brief_transitions draft = clarifying ∷ proposed ∷ []
brief_transitions clarifying = clarifying ∷ proposed ∷ draft ∷ []
brief_transitions proposed = clarifying ∷ proposed ∷ accepted ∷ []
brief_transitions accepted = clarifying ∷ proposed ∷ bootstrapping ∷ registered ∷ []
brief_transitions bootstrapping = registered ∷ accepted ∷ clarifying ∷ bootstrapping ∷ []
brief_transitions registered = clarifying ∷ proposed ∷ bootstrapping ∷ []

pub record ProductBrief : Type 0 where
  pub id : String
  pub state : BriefState
  pub project_type : Option ProjectType
  pub review_choice : Option ReviewChoice
  pub governance_decision_id : Option String
  pub governance_version : ℕ
  pub version : ℕ

pub record ProposalRequirement : Type 0 where
  pub id : String
  pub text : String
  pub mandatory : Bool

pub data ProposalState : Type 0 where
  drafted presented taken superseded invalidated : ProposalState

pub record ProposalVersion : Type 0 where
  pub id : String
  pub brief_id : String
  pub version : ℕ
  pub state : ProposalState
  pub summary : String
  pub requirements : List ProposalRequirement
  pub plan : ExecutionPlan
  pub valid : Bool
  pub fingerprint : String
  pub brief_version : ℕ

pub record AcceptanceBinding : Type 0 where
  pub id : String
  pub brief_id : String
  pub proposal_id : String
  pub proposal_version : ℕ
  pub proposal_fingerprint : String
  pub brief_version : ℕ
  pub accepted_by : String
  pub is_active : Bool

-- What `planSubmissions` reads back: the tasks that a proposal was turned into.
pub record Submission : Type 0 where
  pub brief_id : String
  pub proposal_id : String
  pub task_ids : List String

pub record Desk : Type 0 where
  pub briefs : List ProductBrief
  pub proposals : List ProposalVersion
  pub acceptances : List AcceptanceBinding
  pub submissions : List Submission
  pub db : Db
  pub conversation : List (String × String)

pub data IntakeError : Type 0 where
  unknown_brief unknown_proposal : String → IntakeError
  invalid_brief_transition : BriefState → BriefState → IntakeError
  version_changed : String → ℕ → ℕ → IntakeError
  not_ready governance_changed not_a_person proposal_changed not_valid : IntakeError
  proposal_over : ℕ → IntakeError
  built_from_other_version : ℕ → ℕ → IntakeError
  already_accepted constraint_violation no_summary nothing_changed : IntakeError
  store_error : StoreError → IntakeError

abbrev pub brief_key : ProductBrief → String
brief_key b = b.id

abbrev pub proposal_key : ProposalVersion → String
proposal_key p = p.id

unfoldable pub get_brief : String → Desk → Option ProductBrief
get_brief id d = lookup brief_key id d.briefs

unfoldable pub get_proposal : String → Desk → Option ProposalVersion
get_proposal id d = lookup proposal_key id d.proposals

abbrev pub found_or {ℓ} : {A : Type ℓ} → Option A → IntakeError → Outcome IntakeError A
found_or none e = throw e
found_or (some a) e = ok a

abbrev pub say : String → String → Desk → Desk
say kind brief d = record d { conversation = (kind, brief) ∷ d.conversation }

abbrev pub in_state : BriefState → ProductBrief → ProductBrief
in_state to b = record b { state = to }

unfoldable pub move_brief : BriefState → ProductBrief → Desk → Outcome IntakeError Desk
move_brief to b d =
    if brief_state_eq b.state to
    then ok d
    else if any (λ s. brief_state_eq s to) (brief_transitions b.state)
    then ok (
        say "brief.state" b.id (record d { briefs = update brief_key b.id (in_state to) d.briefs }))
    else throw (invalid_brief_transition b.state to)

unfoldable pub set_brief_state : String → BriefState → Desk → Outcome IntakeError Desk
unfolding get_brief move_brief
set_brief_state id to d = found_or (get_brief id d) (unknown_brief id) >>= λ b. move_brief to b d

abbrev is_pending : ProposalState → Bool
is_pending drafted = true
is_pending presented = true
is_pending _ = false

-- `UPDATE proposal_versions SET state = 'superseded'` of the proposals that were waiting
abbrev pub supersede : String → ProposalVersion → ProposalVersion
supersede brief p =
    if str_eq p.brief_id brief && is_pending p.state then record p { state = superseded } else p

-- `previous.at(-1)?.version ?? 0`, where the proposals are ordered by version
unfoldable pub last_version : String → List ProposalVersion → ℕ
last_version brief [] = 0
last_version brief (p ∷ ps) =
    let rest = last_version brief ps in if str_eq p.brief_id brief then max p.version rest else rest

unfoldable pub insert_proposal : ProposalVersion → Desk → Desk
unfolding last_version
insert_proposal p d = say "proposal.presented" p.brief_id (record d {
  proposals =
      insert (record p { version = last_version p.brief_id d.proposals + 1; state = presented })
        (map (supersede p.brief_id) d.proposals);
})

abbrev pub is_active_for : String → AcceptanceBinding → Bool
is_active_for brief a = a.is_active && str_eq a.brief_id brief

-- `activeAcceptance`; a unique index allows one active acceptance of a brief.
unfoldable pub active_acceptance : String → Desk → Option AcceptanceBinding
active_acceptance brief d = find (is_active_for brief) d.acceptances

abbrev pub invalidated_if : String → AcceptanceBinding → AcceptanceBinding
invalidated_if brief a = if is_active_for brief a then record a { is_active = false } else a

abbrev accepted_ids : String → List AcceptanceBinding → List String
accepted_ids brief as' = map (λ a. a.proposal_id) (filter (is_active_for brief) as')

abbrev pub invalidated_proposal : List String → ProposalVersion → ProposalVersion
invalidated_proposal ids p = if includes ids p.id then record p { state = invalidated } else p

-- The desk afterwards, and the proposals whose acceptance was invalidated.
unfoldable pub invalidate_acceptance : String → Desk → Desk × List String
invalidate_acceptance brief d =
    let ids = accepted_ids brief d.acceptances in
    (
      record d {
        acceptances = map (invalidated_if brief) d.acceptances;
        proposals = map (invalidated_proposal ids) d.proposals;
        conversation = map (λ id. ("acceptance.invalidated", brief)) ids ++ d.conversation;
      },
      ids,
    )
