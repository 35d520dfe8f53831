-- ===== src/Governance/Delivery.antt =====
-- src/domain/project-policy.ts: `resolveReviewChoice`.
use multi_agent_build_system.Prelude.{
  String, ◌≡◌, inl, inr, Option, some, arith, Option-cases, ok, Outcome-cases,
}
use multi_agent_build_system.Governance.{
  ReviewChoice, DeliveryMode, delivery_mode_review, delivery_of, choice_of, read_delivery,
  read_choice, agree, resolve_review_choice,
}

-- The choice is the one that the delivery mode means, if one is given.
abbrev pub MeansDelivery : Option String → Option ReviewChoice → Type 0
MeansDelivery delivery c =
    (s : String)
    → delivery ≡ some s
    → (m : DeliveryMode) × (delivery_of s ≡ some m) × (c ≡ some (delivery_mode_review m))

-- The choice is the one that is named, if one is.
abbrev pub MeansChoice : Option String → Option ReviewChoice → Type 0
MeansChoice chosen c =
    (s : String) → chosen ≡ some s → (k : ReviewChoice) × (choice_of s ≡ some k) × (c ≡ some k)

delivery_read :
    (delivery : Option String) (m : Option DeliveryMode)
    → read_delivery delivery ≡ ok m
    → (s : String) → delivery ≡ some s
    → (k : DeliveryMode) × (delivery_of s ≡ some k) × (m ≡ some k)
unfolding read_delivery
delivery_read delivery m h s e = elim (Option-cases (delivery_of s)) [
  | inl missing ↦ absurd (ground arith)
  | inr (k, known) ↦ (k, known, ground arith)
]

choice_read :
    (chosen : Option String) (c : Option ReviewChoice)
    → read_choice chosen ≡ ok c
    → (s : String) → chosen ≡ some s
    → (k : ReviewChoice) × (choice_of s ≡ some k) × (c ≡ some k)
unfolding read_choice
choice_read chosen c h s e = elim (Option-cases (choice_of s)) [
  | inl missing ↦ absurd (ground arith)
  | inr (k, known) ↦ (k, known, ground arith)
]

agreed :
    (m : Option DeliveryMode) (k c : Option ReviewChoice)
    → agree m k ≡ ok c
    → ((x : DeliveryMode) → m ≡ some x → c ≡ some (delivery_mode_review x))
      × ((x : ReviewChoice) → k ≡ some x → c ≡ some x)
unfolding agree
agreed m k c h = (λ x e. ground arith, λ x e. ground arith)

resolved_parts :
    (delivery chosen : Option String) (c : Option ReviewChoice)
    → resolve_review_choice delivery chosen ≡ ok c
    → (m : Option DeliveryMode) × (k : Option ReviewChoice) × (read_delivery delivery ≡ ok m)
      × (read_choice chosen ≡ ok k)
      × (agree m k ≡ ok c)
unfolding resolve_review_choice
resolved_parts delivery chosen c h = elim (Outcome-cases (read_delivery delivery)) [
  | inl (m, first) ↦ elim (Outcome-cases (read_choice chosen)) [
    | inl (k, second) ↦ (m, k, first, second, ground arith)
    | inr (e, refused) ↦ absurd (ground arith)
  ]
  | inr (e, refused) ↦ absurd (ground arith)
]

-- The review choice that `--delivery` and `--review` resolve to is the one that each of them that is
-- given means: both name known words, and where both are given they agree.
pub resolved_means :
    (delivery chosen : Option String) (c : Option ReviewChoice)
    → resolve_review_choice delivery chosen ≡ ok c
    → MeansDelivery delivery c × MeansChoice chosen c
resolved_means delivery chosen c h =
    let (m, k, first, second, both) = resolved_parts delivery chosen c h in
    let (by_mode, by_choice) = agreed m k c both in
    (
      λ s e. let (x, known, is) = delivery_read delivery m first s e in (x, known, by_mode x is),
      λ s e. let (x, known, is) = choice_read chosen k second s e in (x, known, by_choice x is),
    )
