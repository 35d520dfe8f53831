-- ===== src/Scheduling/Fairness/Complete.antt =====
-- src/scheduling/admission.ts: `fairOrder` ends and returns each candidate as often as it was given.
use native.Mathlib.Nat.{zero-add}
use multi_agent_build_system.Prelude.{
  ℕ, zero, suc, ◌+◌, ◌<◌, String, ◌≡◌, refl, ◌∙◌, inl, inr, Bool, none, some, List, [], ◌∷◌, ◌++◌,
  map, arith, ltb, if◌then◌else◌, Bool-cases, Option-cases, length, filter, get_elem?,
}
use multi_agent_build_system.Scheduling.Fairness.{
  FairnessCandidate, Queue, enqueue, by_project, insert, sort, task_before, queue_before,
  sort_queue, queues_of, round_items, take_rounds, fair_order,
}

abbrev total {ℓ} : {A : Type ℓ} → (A → ℕ) → List A → ℕ
total f [] = 0
total f (x ∷ xs) = f x + total f xs

total-append {ℓ} :
    {A : Type ℓ} (f : A → ℕ) (xs ys : List A) → total f (xs ++ ys) ≡ total f xs + total f ys
total-append f [] ys = omega arith
total-append f (x ∷ xs) ys = omega (arith, total-append f xs ys)

total-map {ℓ κ} :
    {A : Type ℓ} {B : Type κ} (f : B → ℕ) (g : A → B) (xs : List A)
    → total f (map g xs) ≡ total (λ x. f (g x)) xs
total-map f g [] = refl
total-map f g (x ∷ xs) = omega (arith, total-map f g xs)

total-ext {ℓ} :
    {A : Type ℓ} (f g : A → ℕ) (xs : List A) → ((x : A) → f x ≡ g x) → total f xs ≡ total g xs
total-ext f g [] h = refl
total-ext f g (x ∷ xs) h = omega (arith, h x, total-ext f g xs h)

total-insert {ℓ} :
    {A : Type ℓ} (before : A → A → Bool) (f : A → ℕ) (x : A) (xs : List A)
    → total f (insert before x xs) ≡ f x + total f xs
unfolding insert
total-insert before f x [] = refl
total-insert before f x (y ∷ ys) = ground (arith, total-insert before f x ys)

total-sort {ℓ} :
    {A : Type ℓ} (before : A → A → Bool) (f : A → ℕ) (xs : List A)
    → total f (sort before xs) ≡ total f xs
unfolding sort
total-sort before f [] = refl
total-sort before f (x ∷ xs) =
    omega (arith, total-insert before f x (sort before xs), total-sort before f xs)

module _ (f : FairnessCandidate → ℕ) where
  total-enqueue :
      (c : FairnessCandidate) (qs : List Queue)
      → total (λ q. total f q.items) (enqueue c qs) ≡ f c + total (λ q. total f q.items) qs
  unfolding enqueue
  total-enqueue c [] = omega arith
  total-enqueue c (q ∷ qs) = ground (arith, total-append f q.items (c ∷ []), total-enqueue c qs)

  total-by_project :
      (qs : List Queue) (cs : List FairnessCandidate)
      → total (λ q. total f q.items) (by_project qs cs)
        ≡ total (λ q. total f q.items) qs + total f cs
  unfolding by_project
  total-by_project qs [] = omega arith
  total-by_project qs (c ∷ cs) =
      omega (arith, total-by_project (enqueue c qs) cs, total-enqueue c qs)

  total-queues_of :
      (text_le : String → String → Bool) (service : String → ℕ) (now aging_ms : ℕ)
      (cs : List FairnessCandidate)
      → total (total f) (queues_of text_le service now aging_ms cs) ≡ total f cs
  unfolding queues_of
  total-queues_of text_le service now aging_ms cs =
      let queues = by_project [] cs in
      let tidy = sort_queue text_le service now aging_ms in
      let ahead = queue_before text_le service now aging_ms in
      total-map (total f) (λ (q : Queue). q.items) (sort ahead (map tidy queues))
      ∙ total-sort ahead (λ q. total f q.items) (map tidy queues)
      ∙ total-map (λ (q : Queue). total f q.items) tidy queues
      ∙ total-ext (λ q. total f (tidy q).items) (λ q. total f q.items) queues
          (λ q. total-sort (task_before text_le service now aging_ms) f q.items)
      ∙ total-by_project [] cs
      ∙ zero-add (total f cs)

abbrev drop {ℓ} : {A : Type ℓ} → ℕ → List A → List A
drop zero xs = xs
drop (suc n) [] = []
drop (suc n) (x ∷ xs) = drop n xs

total-drop {ℓ} :
    {A : Type ℓ} (f : A → ℕ) (n : ℕ) (xs : List A)
    → total f (drop n xs)
      ≡ elim (get_elem? xs n) [ none ↦ 0 | some x ↦ f x ] + total f (drop (suc n) xs)
total-drop f zero [] = refl
total-drop f (suc n) [] = refl
total-drop f zero (x ∷ xs) = refl
total-drop f (suc n) (x ∷ xs) = total-drop f n xs

total-drop-none {ℓ} :
    {A : Type ℓ} (f : A → ℕ) (n : ℕ) (xs : List A) → get_elem? xs n ≡ none → total f (drop n xs) ≡ 0
total-drop-none f zero [] h = refl
total-drop-none f (suc n) [] h = refl
total-drop-none f zero (x ∷ xs) h = cc
total-drop-none f (suc n) (x ∷ xs) h = total-drop-none f n xs h

abbrev one : FairnessCandidate → ℕ
one c = 1

length-total : (cs : List FairnessCandidate) → length cs ≡ total one cs
length-total [] = refl
length-total (c ∷ cs) = omega (arith, length-total cs)

total_none :
    (f : FairnessCandidate → ℕ) (cs : List FairnessCandidate) → total one cs ≡ 0 → total f cs ≡ 0
total_none f [] h = refl
total_none f (c ∷ cs) h = absurd (omega arith)

-- What the queues still hold at a round.
abbrev left_at : ℕ → (FairnessCandidate → ℕ) → List (List FairnessCandidate) → ℕ
left_at round f qs = total (λ q. total f (drop round q)) qs

left_none :
    (round : ℕ) (f : FairnessCandidate → ℕ) (qs : List (List FairnessCandidate))
    → left_at round one qs ≡ 0
    → left_at round f qs ≡ 0
left_none round f [] h = refl
left_none round f (q ∷ qs) h =
    omega (arith, total_none f (drop round q) (omega arith), left_none round f qs (omega arith))

total-round_items :
    (f : FairnessCandidate → ℕ) (round : ℕ) (qs : List (List FairnessCandidate))
    → total f (round_items round qs) + left_at (suc round) f qs ≡ left_at round f qs
unfolding round_items
total-round_items f round [] = refl
total-round_items f round (q ∷ qs) =
    let ih = total-round_items f round qs in
    let step = total-drop f round q in
    elim (Option-cases (get_elem? q round)) [
      | inl missing ↦ ground (arith, ih, step)
      | inr (item, at) ↦ ground (arith, ih, step)
    ]

left-less :
    (round : ℕ) (qs : List (List FairnessCandidate))
    → 0 < left_at round one qs
    → left_at (suc round) one qs < left_at round one qs
left-less round [] h = absurd (omega arith)
left-less round (q ∷ qs) h =
    let step = total-drop one round q in
    let others = total-round_items one round qs in
    elim (Option-cases (get_elem? q round)) [
      | inl missing ↦
          let empty = total-drop-none one round q missing in
          let smaller = left-less round qs (omega (arith, empty)) in
          ground (arith, step, empty, smaller)
      | inr (item, at) ↦ ground (arith, step, others)
    ]

take_rounds_ends :
    (fuel size : ℕ) (qs : List (List FairnessCandidate)) (round : ℕ)
    (ordered : List FairnessCandidate)
    → length ordered + left_at round one qs ≡ size
    → left_at round one qs < fuel
    → (out : List FairnessCandidate) × (take_rounds fuel size qs round ordered ≡ some out)
      × ((f : FairnessCandidate → ℕ) → total f out ≡ total f ordered + left_at round f qs)
unfolding take_rounds
take_rounds_ends zero size qs round ordered same enough = absurd (omega arith)
take_rounds_ends (suc fuel) size qs round ordered same enough =
    elim (Bool-cases (ltb (length ordered) size)) [
      | inl goes_on ↦
          let taken = round_items round qs in
          let smaller = left-less round qs (ground arith) in
          let moved = total-round_items one round qs in
          let (out, at, sums) =
            take_rounds_ends fuel size qs (suc round) (ordered ++ taken)
              (omega (
                arith,
                length-total (ordered ++ taken),
                length-total ordered,
                total-append one ordered taken,
                moved,
              ))
              (omega (arith, smaller)) in
          (
            out,
            ground (arith, at),
            λ f. omega (arith, sums f, total-append f ordered taken, total-round_items f round qs),
          )
      | inr stops ↦ (ordered, ground arith, λ f. omega (arith, left_none round f qs (ground arith)))
    ]

-- How many of the candidates a test picks out.
abbrev pub count : (FairnessCandidate → Bool) → List FairnessCandidate → ℕ
count p cs = length (filter p cs)

abbrev indicator : (FairnessCandidate → Bool) → FairnessCandidate → ℕ
indicator p c = if p c then 1 else 0

count-total :
    (p : FairnessCandidate → Bool) (cs : List FairnessCandidate)
    → count p cs ≡ total (indicator p) cs
count-total p [] = refl
count-total p (c ∷ cs) = ground (arith, count-total p cs)

-- The fair order of the ready work ends for every service, age and order of names, and whatever a test
-- picks out of the candidates it picks out of the result as often: none is lost and none comes twice.
pub fair_order-count :
    (text_le : String → String → Bool) (service : String → ℕ) (now aging_ms : ℕ)
    (candidates : List FairnessCandidate)
    → (ordered : List FairnessCandidate) × (fair_order text_le service now aging_ms candidates
        ≡ some ordered)
      × ((p : FairnessCandidate → Bool) → count p ordered ≡ count p candidates)
unfolding fair_order
fair_order-count text_le service now aging_ms candidates =
    let queues = queues_of text_le service now aging_ms candidates in
    let whole : (f : FairnessCandidate → ℕ) → left_at 0 f queues ≡ total f candidates =
      λ f. total-queues_of f text_le service now aging_ms candidates in
    let (ordered, at, sums) =
      take_rounds_ends (suc (length candidates)) (length candidates) queues 0 []
        (omega (arith, whole one, length-total candidates))
        (omega (arith, whole one, length-total candidates)) in
    (
      ordered,
      at,
      λ p. omega (
        arith,
        count-total p ordered,
        count-total p candidates,
        sums (indicator p),
        whole (indicator p),
      ),
    )
