-- ===== src/Obligations/Tracker.antt =====
-- src/store/records.ts: the ledger of obligations as a tracker of issues. The tracker is what a reader of the
-- ledger relies on: which issues there are and whether one is pending, tentatively addressed or over.
-- It forgets the order of the rows and all that they hold beside.
use multi_agent_build_system.Prelude.{
  String, ◌≡◌, Bool, true, false, Option, none, some, str_eq, if◌then◌else◌,
}
use multi_agent_build_system.Obligations.{
  ObligationState, opened, addressed_pending_validation, TaskObligation, Ledger, get_obligation,
}

pub data Status : Type 0 where
  pending tentative over : Status

abbrev pub Tracker : Type 0
Tracker = String → Option Status

abbrev pub put : String → Status → Tracker → Tracker
put id v s = λ j. if str_eq id j then some v else s j

-- An issue that is over stays over, and one goes back to pending only when it was tentatively addressed.
abbrev pub may_become : Status → Status → Bool
may_become pending pending = false
may_become pending _ = true
may_become tentative _ = true
may_become over _ = false

-- The steps of the tracker: an issue is reported once, and then moves as it may.
pub data TrackerStep (s : Tracker) : Tracker → Type 0 where
  idle : TrackerStep s s
  report : (id : String) → s id ≡ none → TrackerStep s (put id pending s)
  advance :
      (id : String) (a b : Status)
      → s id ≡ some a
      → may_become a b ≡ true
      → TrackerStep s (put id b s)

pub data TrackerReach (s : Tracker) : Tracker → Type 0 where
  start : TrackerReach s s
  more : {t u : Tracker} → TrackerReach s t → TrackerStep t u → TrackerReach s u

abbrev pub status_of : ObligationState → Status
status_of opened = pending
status_of addressed_pending_validation = tentative
status_of _ = over

abbrev pub status_in : Option TaskObligation → Option Status
status_in none = none
status_in (some o) = some (status_of o.state)

unfoldable pub view : Ledger → Tracker
unfolding get_obligation
view l = λ id. status_in (get_obligation id l)
