-- ===== src/Task.antt =====
-- src/domain/states.ts: the states of a task, the table of its transitions and the sets of states.
use multi_agent_build_system.Prelude.{ℕ, ◌≡◌, ◌↔◌, Bool, true, List, [], ◌∷◌, arith, ◌==◌, any}

pub data TaskState : Type 0 where
  queued ready running checking reviewing awaiting_approval blocked done failed cancelled :
      TaskState

-- The position of a state in `TASK_STATES`.
abbrev pub state_rank : TaskState → ℕ
state_rank queued = 0
state_rank ready = 1
state_rank running = 2
state_rank checking = 3
state_rank reviewing = 4
state_rank awaiting_approval = 5
state_rank blocked = 6
state_rank done = 7
state_rank failed = 8
state_rank cancelled = 9

-- `===` on states
abbrev pub state_eq : TaskState → TaskState → Bool
state_eq a b = state_rank a == state_rank b

-- The row of a state in `TRANSITIONS`.
abbrev pub transitions : TaskState → List TaskState
transitions queued = ready ∷ blocked ∷ cancelled ∷ []
transitions ready = running ∷ blocked ∷ queued ∷ cancelled ∷ []
transitions running = checking ∷ awaiting_approval ∷ blocked ∷ failed ∷ cancelled ∷ ready ∷ []
transitions checking =
    reviewing ∷ running ∷ awaiting_approval ∷ blocked ∷ failed ∷ cancelled ∷ done ∷ []
transitions reviewing = running ∷ awaiting_approval ∷ done ∷ blocked ∷ failed ∷ cancelled ∷ []
transitions awaiting_approval =
    running ∷ checking ∷ reviewing ∷ ready ∷ blocked ∷ done ∷ failed ∷ cancelled ∷ []
transitions blocked = ready ∷ queued ∷ running ∷ reviewing ∷ failed ∷ cancelled ∷ []
transitions done = []
transitions failed = queued ∷ ready ∷ cancelled ∷ []
transitions cancelled = queued ∷ []

unfoldable pub can_transition : TaskState → TaskState → Bool
can_transition from to = any (λ s. state_eq s to) (transitions from)

pub state_eq_iff : (a b : TaskState) → (state_eq a b ≡ true) ↔ (a ≡ b)
state_eq_iff a b = ground arith

-- `TERMINAL_STATES`
abbrev terminal_states : List TaskState
terminal_states = done ∷ failed ∷ cancelled ∷ []

unfoldable pub is_terminal : TaskState → Bool
is_terminal state = any (λ s. state_eq s state) terminal_states

-- `SLOT_HOLDING_STATES`
abbrev slot_holding_states : List TaskState
slot_holding_states = running ∷ checking ∷ reviewing ∷ []

unfoldable pub holds_slot : TaskState → Bool
holds_slot state = any (λ s. state_eq s state) slot_holding_states

-- src/routing/router.ts: `TASK_CLASSES`
pub data TaskClass : Type 0 where
  mechanical small_implementation complex_coding diagnosis planning research : TaskClass
  review troubleshooting curation : TaskClass

class_rank : TaskClass → ℕ
class_rank mechanical = 0
class_rank small_implementation = 1
class_rank complex_coding = 2
class_rank diagnosis = 3
class_rank planning = 4
class_rank research = 5
class_rank review = 6
class_rank troubleshooting = 7
class_rank curation = 8

unfoldable pub class_eq : TaskClass → TaskClass → Bool
unfolding class_rank
class_eq a b = class_rank a == class_rank b

pub class_eq_lem : (a b : TaskClass) → (class_eq a b ≡ true) ↔ (a ≡ b)
unfolding class_eq
class_eq_lem a b = ground arith
