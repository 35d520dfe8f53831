-- ===== src/Governance.antt =====
-- src/domain/project-policy.ts: what a project must have decided before anything of it runs. A
-- conflict is the kind of its message with the values put into it.
pub mod Ready
pub mod Delivery
use multi_agent_build_system.Task.{ready, TaskClass}
use multi_agent_build_system.Prelude.{
  ℕ, String, ◌≡◌, ◌↔◌, Bool, true, false, ◌&&◌, ◌||◌, not, Option, none, some, List, [], ◌∷◌, ◌++◌,
  arith, str_eq, ltb, ◌==◌, if◌then◌else◌, is_some, is_empty, when, Outcome, ok, throw, ◌>>=◌, ◌>>◌,
  throw_if,
}

pub data ProjectType : Type 0 where
  personal client other : ProjectType

pub data ReviewChoice : Type 0 where
  off risk required : ReviewChoice

pub data DeliveryMode : Type 0 where
  fast standard verified : DeliveryMode

abbrev pub policy_version : String
policy_version = "mabs.project-governance.v1"

abbrev pub delivery_mode_review : DeliveryMode → ReviewChoice
delivery_mode_review fast = off
delivery_mode_review standard = risk
delivery_mode_review verified = required

pub data GovernanceError : Type 0 where
  unknown_delivery_mode unknown_review_choice : String → GovernanceError
  delivery_conflict : DeliveryMode → ReviewChoice → ReviewChoice → GovernanceError
  client_needs_required : GovernanceError

-- The word is one of `DELIVERY_MODES`.
unfoldable pub delivery_of : String → Option DeliveryMode
delivery_of s =
    if str_eq s "fast"
    then some fast
    else (if str_eq s "standard"
        then some standard
        else (if str_eq s "verified" then some verified else none))

-- The word is one of `REVIEW_CHOICES`.
unfoldable pub choice_of : String → Option ReviewChoice
choice_of s =
    if str_eq s "off"
    then some off
    else (if str_eq s "risk"
        then some risk
        else (if str_eq s "required" then some required else none))

abbrev pub choice_rank : ReviewChoice → ℕ
choice_rank off = 0
choice_rank risk = 1
choice_rank required = 2

abbrev pub choice_eq : ReviewChoice → ReviewChoice → Bool
choice_eq a b = choice_rank a == choice_rank b

pub choice_eq_iff : (a b : ReviewChoice) → (choice_eq a b ≡ true) ↔ (a ≡ b)
choice_eq_iff a b = ground arith

read_delivery : Option String → Outcome GovernanceError (Option DeliveryMode)
unfolding delivery_of
read_delivery none = ok none
read_delivery (some s) = elim (delivery_of s) [
  | none ↦ throw (unknown_delivery_mode s)
  | some m ↦ ok (some m)
]

read_choice : Option String → Outcome GovernanceError (Option ReviewChoice)
unfolding choice_of
read_choice none = ok none
read_choice (some s) = elim (choice_of s) [
  | none ↦ throw (unknown_review_choice s)
  | some c ↦ ok (some c)
]

agree : Option DeliveryMode → Option ReviewChoice → Outcome GovernanceError (Option ReviewChoice)
agree none c = ok c
agree (some m) none = ok (some (delivery_mode_review m))
agree (some m) (some c) =
    if choice_eq (delivery_mode_review m) c
    then ok (some (delivery_mode_review m))
    else throw (delivery_conflict m (delivery_mode_review m) c)

unfoldable pub resolve_review_choice :
    Option String → Option String → Outcome GovernanceError (Option ReviewChoice)
unfolding read_delivery read_choice agree
resolve_review_choice delivery chosen = do
  m ← read_delivery delivery
  c ← read_choice chosen
  agree m c

pub data DecisionState : Type 0 where
  unresolved confirmed : DecisionState

pub record ProjectGovernance : Type 0 where
  pub project_type : Option ProjectType
  pub review_choice : Option ReviewChoice
  pub decision_state : DecisionState
  pub decision_id : Option String
  pub policy_version : String
  pub version : ℕ

abbrev pub unresolved_governance : ProjectGovernance
unresolved_governance = record {
  project_type = none;
  review_choice = none;
  decision_state = unresolved;
  decision_id = none;
  policy_version = policy_version;
  version = 0;
}

pub data ReviewTrigger : Type 0 where
  off manual risk required : ReviewTrigger

pub data ReviewerRoute : Type 0 where
  independent_provider same_provider_fresh_context : ReviewerRoute

pub data CapacityAction : Type 0 where
  pending blocked : CapacityAction

pub record GovernedReviewPolicy : Type 0 where
  pub trigger : ReviewTrigger
  pub reviewer_route : ReviewerRoute
  pub capacity_action : CapacityAction
  pub skip_task_classes : List TaskClass

pub data Missing : Type 0 where
  missing_type missing_choice missing_decision : Missing

pub data Conflict : Type 0 where
  client_review_off : Conflict
  version_not_supported : String → Conflict
  trigger_mismatch : ReviewChoice → ReviewTrigger → Conflict
  required_skips client_route client_capacity : Conflict

-- The key of a question and the choices that it offers.
pub record GovernanceQuestion : Type 0 where
  pub asks_review : Bool
  pub prompt : String
  pub choices : List String

pub record ProjectReadiness : Type 0 where
  pub ready : Bool
  pub missing : List Missing
  pub conflicts : List Conflict
  pub questions : List GovernanceQuestion

abbrev pub review_choices : List String
review_choices = "off" ∷ "risk" ∷ "required" ∷ []

abbrev pub is_client : Option ProjectType → Bool
is_client none = false
is_client (some t) = elim t [ client ↦ true | _ ↦ false ]

abbrev pub choice_is : ReviewChoice → Option ReviewChoice → Bool
choice_is c none = false
choice_is c (some c') = choice_eq c' c

abbrev pub is_confirmed : DecisionState → Bool
is_confirmed confirmed = true
is_confirmed unresolved = false

missing_answers : ProjectGovernance → List Missing
missing_answers g = elim g.project_type [
  | none ↦ missing_type ∷ []
  | some t ↦ when (not (is_some g.review_choice)) missing_choice
]

missing_confirmation : ProjectGovernance → List Missing
missing_confirmation g =
    when (not (is_confirmed g.decision_state) || not (is_some g.decision_id) || ltb g.version 1)
      missing_decision

type_question : GovernanceQuestion
type_question = record {
  asks_review = false;
  prompt = "Is this a personal, client, or another type of project?";
  choices = "personal" ∷ "client" ∷ "other" ∷ [];
}

review_question : ProjectType → GovernanceQuestion
review_question client = record {
  asks_review = true;
  prompt = "Confirm the mandatory independent-review policy for this client project.";
  choices = "required" ∷ [];
}
review_question personal = record {
  asks_review = true;
  prompt = "Choose no automatic review, risk-based review, or review for every code change.";
  choices = review_choices;
}
review_question other = record {
  asks_review = true;
  prompt = "Choose an explicit review policy for this project.";
  choices = review_choices;
}

questions_for : ProjectGovernance → List GovernanceQuestion
unfolding type_question review_question
questions_for g = elim g.project_type [
  | none ↦ type_question ∷ []
  | some t ↦ when (not (is_some g.review_choice)) (review_question t)
]

abbrev pub trigger_is : ReviewChoice → ReviewTrigger → Bool
trigger_is off t = elim t [ ReviewTrigger.off ↦ true | _ ↦ false ]
trigger_is risk t = elim t [ ReviewTrigger.risk ↦ true | _ ↦ false ]
trigger_is required t = elim t [ ReviewTrigger.required ↦ true | _ ↦ false ]

abbrev pub is_independent : ReviewerRoute → Bool
is_independent independent_provider = true
is_independent same_provider_fresh_context = false

abbrev pub is_blocking : CapacityAction → Bool
is_blocking blocked = true
is_blocking pending = false

-- The conflicts with the review policy, where there is one and a choice is recorded.
policy_conflicts :
    ProjectGovernance → Option GovernedReviewPolicy → Option ReviewChoice → List Conflict
policy_conflicts g none choice = []
policy_conflicts g (some p) none = []
policy_conflicts g (some p) (some c) =
    when (not (trigger_is c p.trigger)) (trigger_mismatch c p.trigger)
    ++ when (choice_eq c required && not (is_empty p.skip_task_classes)) required_skips
    ++ when (is_client g.project_type && not (is_independent p.reviewer_route)) client_route
    ++ when (is_client g.project_type && not (is_blocking p.capacity_action)) client_capacity

-- The conflicts of the recorded answers.
own_conflicts : ProjectGovernance → List Conflict
own_conflicts g =
    when (is_client g.project_type && choice_is off g.review_choice) client_review_off
    ++ when (not (str_eq g.policy_version policy_version)) (version_not_supported g.policy_version)

-- No entry of `missing` is pushed twice, so the Set that the source builds of it is the list itself.
unfoldable pub evaluate_project_readiness :
    ProjectGovernance → Option GovernedReviewPolicy → ProjectReadiness
unfolding missing_answers missing_confirmation questions_for own_conflicts policy_conflicts
evaluate_project_readiness g p =
    let missing = missing_answers g ++ missing_confirmation g in
    let conflicts = own_conflicts g ++ policy_conflicts g p g.review_choice in
    record {
      ready = is_empty missing && is_empty conflicts;
      missing = missing;
      conflicts = conflicts;
      questions = questions_for g;
    }

-- Both words are of their types, so only the pairing is checked.
unfoldable pub assert_governance_decision :
    ProjectType → ReviewChoice → Outcome GovernanceError (Unit {0})
assert_governance_decision t c =
    throw_if (is_client (some t) && not (choice_eq c required)) client_needs_required
