-- ===== src/Scheduling/Fairness.antt =====
-- src/scheduling/admission.ts: `fairOrder`. Times are naturals, in milliseconds; a score may be negative, so
-- two scores are compared with what is subtracted moved to the other side.
pub mod Complete
use multi_agent_build_system.Prelude.{
  ℕ, zero, suc, ◌+◌, ◌-◌, ◌/◌, min, String, Bool, Option, none, some, List, [], ◌∷◌, ◌++◌, map,
  str_eq, ltb, ◌==◌, if◌then◌else◌, length, get_elem?,
}

pub record FairnessCandidate : Type 0 where
  pub task_id : String
  pub project_id : String
  pub priority : ℕ
  pub ready_since : ℕ

-- An entry of `byProject`.
pub record Queue : Type 0 where
  pub project : String
  pub items : List FairnessCandidate

abbrev start_queue : FairnessCandidate → Queue
start_queue c = record { project = c.project_id; items = c ∷ [] }

unfoldable pub enqueue : FairnessCandidate → List Queue → List Queue
enqueue c [] = start_queue c ∷ []
enqueue c (q ∷ qs) =
    let rest = enqueue c qs in
    if str_eq q.project c.project_id then record q { items = q.items ++ c ∷ [] } ∷ qs else q ∷ rest

unfoldable pub by_project : List Queue → List FairnessCandidate → List Queue
unfolding enqueue
by_project qs [] = qs
by_project qs (c ∷ cs) = by_project (enqueue c qs) cs

-- `list.sort(…)`, which is stable: `before x y` says that `y` is not to stand before `x`.
module _ {ℓ} {A : Type ℓ} (before : A → A → Bool) where
  unfoldable pub insert : A → List A → List A
  insert x [] = x ∷ []
  insert x (y ∷ ys) = let rest = insert x ys in if before x y then x ∷ y ∷ ys else y ∷ rest

  unfoldable pub sort : List A → List A
  unfolding insert
  sort [] = []
  sort (x ∷ xs) = insert x (sort xs)

-- `text_le` is `left.localeCompare(right) <= 0`, and `service` is `serviceByProject.get(id) ?? 0`.
module _ (text_le : String → String → Bool) (service : String → ℕ) (now aging_ms : ℕ) where
  unfoldable pub task_before : FairnessCandidate → FairnessCandidate → Bool
  task_before left right =
      if left.priority == right.priority
      then if left.ready_since == right.ready_since
        then text_le left.task_id right.task_id
        else ltb left.ready_since right.ready_since
      else ltb left.priority right.priority

  abbrev oldest : List FairnessCandidate → ℕ
  oldest [] = now
  oldest (c ∷ []) = c.ready_since
  oldest (c ∷ d ∷ cs) = min c.ready_since (oldest (d ∷ cs))

  abbrev aging : Queue → ℕ
  aging q = (now - oldest q.items) / aging_ms

  unfoldable pub queue_before : Queue → Queue → Bool
  queue_before left right =
      let l = service left.project + aging right in
      let r = service right.project + aging left in
      if l == r then text_le left.project right.project else ltb l r

  abbrev sort_queue : Queue → Queue
  sort_queue q = record q { items = sort task_before q.items }

  -- The queues in the order of their projects.
  unfoldable pub queues_of : List FairnessCandidate → List (List FairnessCandidate)
  unfolding by_project sort task_before queue_before
  queues_of candidates =
      map (λ q. q.items) (sort queue_before (map sort_queue (by_project [] candidates)))

-- One round: the items at one place of the queues.
unfoldable pub round_items : ℕ → List (List FairnessCandidate) → List FairnessCandidate
round_items round [] = []
round_items round (q ∷ qs) = elim (get_elem? q round) [
  | none ↦ round_items round qs
  | some item ↦ item ∷ round_items round qs
]

-- `for (let round = 0; ordered.length < total; round += 1)`; `none` says that the fuel ran out.
unfoldable pub take_rounds :
    ℕ
    → ℕ
    → List (List FairnessCandidate)
    → ℕ
    → List FairnessCandidate
    → Option (List FairnessCandidate)
unfolding round_items
take_rounds zero total queues round ordered = none
take_rounds (suc fuel) total queues round ordered =
    let rest = take_rounds fuel total queues (suc round) (ordered ++ round_items round queues) in
    if ltb (length ordered) total then rest else some ordered

unfoldable pub fair_order :
    (String → String → Bool)
    → (String → ℕ)
    → ℕ
    → ℕ
    → List FairnessCandidate
    → Option (List FairnessCandidate)
unfolding queues_of take_rounds
fair_order text_le service now aging_ms candidates =
    take_rounds (suc (length candidates)) (length candidates)
      (queues_of text_le service now aging_ms candidates) 0 []
