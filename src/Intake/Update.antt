-- ===== src/Intake/Update.antt =====
-- src/intake/store.ts: `updateBrief`, which raises the version of a brief and closes what rested on it.
use multi_agent_build_system.Prelude.{
  ℕ, ◌+◌, String, Bool, true, false, ◌&&◌, not, none, some, List, [], ◌∷◌, ◌++◌, str_eq, ◌==◌,
  if◌then◌else◌, is_empty, any, is_blank, concat_text, includes, unique, Outcome, ok, throw, ◌>>=◌,
  ◌>>◌, throw_if,
}
use multi_agent_build_system.Store.{Db, StoreError}
use multi_agent_build_system.Store.Table.{update}
use multi_agent_build_system.Store.Tasks.{get_task, TaskField, set_blocked_reason, transition}
use multi_agent_build_system.Task.{TaskState}
use multi_agent_build_system.Intake.Briefs.{
  BriefState, clarifying, accepted, bootstrapping, registered, brief_state_eq, ProductBrief,
  Submission, Desk, IntakeError, unknown_brief, no_summary, nothing_changed, store_error, brief_key,
  get_brief, found_or, say, set_brief_state, invalidate_acceptance,
}

abbrev is_not_started : TaskState → Bool
is_not_started TaskState.queued = true
is_not_started TaskState.ready = true
is_not_started _ = false

unfoldable pub cancelled_reason : String → TaskField
cancelled_reason brief = set_blocked_reason (
    some
      (concat_text "Product brief " (concat_text brief " changed after this plan was accepted.")))

-- The error of a task's transition is an error of the update.
abbrev lift_store {ℓ} : {A : Type ℓ} → Outcome StoreError A → Outcome IntakeError A
lift_store (ok a) = ok a
lift_store (throw e) = throw (store_error e)

unfoldable pub cancel_task : String → String → Db → Outcome IntakeError Db
unfolding get_task cancelled_reason
cancel_task brief id d = elim (get_task id d) [
  | none ↦ ok d
  | some t ↦
      if is_not_started t.state
      then lift_store (transition id TaskState.cancelled (cancelled_reason brief ∷ []) d)
      else ok d
]

-- The tasks of the submitted plan that have not started are cancelled.
unfoldable pub cancel_tasks : String → List String → Db → Outcome IntakeError Db
unfolding cancel_task
cancel_tasks brief [] d = ok d
cancel_tasks brief (id ∷ ids) d = cancel_task brief id d >>= λ d'. cancel_tasks brief ids d'

unfoldable pub submitted_ids : String → List String → List Submission → List String
submitted_ids brief ids [] = []
submitted_ids brief ids (s ∷ ss) =
    (if str_eq s.brief_id brief && includes ids s.proposal_id then s.task_ids else [])
    ++ submitted_ids brief ids ss

abbrev pub bump : ProductBrief → ProductBrief
bump b = record b { version = b.version + 1 }

unfoldable pub reopened_states : List BriefState
reopened_states = accepted ∷ registered ∷ bootstrapping ∷ []

unfoldable pub reopen_brief : ProductBrief → Desk → Outcome IntakeError Desk
unfolding set_brief_state reopened_states
reopen_brief b d =
    if any (brief_state_eq b.state) reopened_states then set_brief_state b.id clarifying d else ok d

unfoldable pub cleared : String → Db → Desk → Desk
cleared brief db d = say "plan.invalidated" brief (record d { db = db })

-- `if (invalidated.length > 0)`, for the ids of the proposals whose acceptance was invalidated
unfoldable pub close_submitted : ProductBrief → List String → Desk → Outcome IntakeError Desk
unfolding submitted_ids cancel_tasks reopen_brief cleared
close_submitted b [] d = ok d
close_submitted b (p ∷ ps) d =
    cancel_tasks b.id (unique (submitted_ids b.id (p ∷ ps) d.submissions)) d.db >>= λ db.
    reopen_brief b (cleared b.id db d)

unfoldable pub written : String → Desk → Desk
written id d = say "brief.updated" id (record d { briefs = update brief_key id bump d.briefs })

-- `updateBrief` by a patch whose fields `changed` are text: the version, and what it invalidates. The
-- changes of the project's type and review choice, which are a decision of governance, are left out.
unfoldable pub update_brief : String → ℕ → String → List String → Desk → Outcome IntakeError Desk
unfolding get_brief invalidate_acceptance close_submitted written
update_brief id expected summary changed d = found_or (get_brief id d) (unknown_brief id) >>= λ b.
    throw_if (not (b.version == expected)) (IntakeError.version_changed id expected b.version)
    >> throw_if (is_blank summary) no_summary
    >> throw_if (is_empty changed) nothing_changed
    >> (let open_after = invalidate_acceptance id (written id d) in
        close_submitted (bump b) open_after.1 open_after.0)
