-- ===== src/Routing/Choice.antt =====
-- src/routing/router.ts: which candidate `selectRoute` chooses.
use mathlib.Core.Option
use multi_agent_build_system.Prelude.{
  ℕ, suc, ◌≤◌, String, ◌≡◌, refl, sym, ap, ◌∙◌, subst, ◌↔◌, ◌⊎◌, inl, inr, Bool, true, false,
  Option, none, some, List, [], ◌∷◌, ◌++◌, arith, ltb, if◌then◌else◌, Bool-cases, is_empty, filter,
  All, All-map, List-cases,
}
use multi_agent_build_system.Routing.{EligibilityEvidence}
use multi_agent_build_system.Routing.Routes.{RouteCandidate}
use multi_agent_build_system.Routing.Request.{
  RouteInput, RejectReason, Placed, policy_routes, candidates_of,
}
use multi_agent_build_system.Routing.Select.{
  Verdict, refuse, defer, accept, judge, Sorted, place_candidate, sort_candidates, chosen_of,
  select_for,
}
use multi_agent_build_system.Task.{TaskClass}

abbrev pub verdict_on : RouteInput → RouteCandidate → Verdict
verdict_on input c = (judge input c).0

abbrev pub is_accepted : Verdict → Bool
is_accepted (refuse why) = false
is_accepted (defer domain) = false
is_accepted (accept domain) = true

abbrev pub is_busy : Verdict → Bool
is_busy (refuse why) = false
is_busy (defer domain) = true
is_busy (accept domain) = false

Verdict-cases :
    (v : Verdict)
    → ((why : RejectReason) × (v ≡ refuse why))
      ⊎ ((domain : String) × (v ≡ defer domain))
      ⊎ ((domain : String) × (v ≡ accept domain))
Verdict-cases (refuse why) = inl (why, refl)
Verdict-cases (defer domain) = inr (inl (domain, refl))
Verdict-cases (accept domain) = inr (inr (domain, refl))

-- The choice read off the verdicts: the first that is accepted, unless a busy one that is waited for
-- stands before it.
pick : RouteInput → List RouteCandidate → Option RouteCandidate
pick input [] = none
pick input (c ∷ cs) =
    let rest = pick input cs in
    elim (verdict_on input c) [
      | refuse why ↦ rest
      | defer domain ↦ if input.waits then none else rest
      | accept domain ↦ some c
    ]

abbrev IsFrom : ℕ → List Placed → Type 0
IsFrom i ps = All (λ (p : Placed). i ≤ p.place) ps

IsFrom-suc : (i : ℕ) (ps : List Placed) → IsFrom (suc i) ps → IsFrom i ps
IsFrom-suc i = All-map (λ p h. omega arith)

record IsPlaced (i : ℕ) (s : Sorted) : Type 0 where
  pub eligible_from : IsFrom i s.eligible
  pub deferred_from : IsFrom i s.deferred

place_candidate-IsPlaced :
    (i : ℕ) (c : RouteCandidate) (v : Verdict × List EligibilityEvidence) (s : Sorted)
    → IsPlaced (suc i) s
    → IsPlaced i (place_candidate i c v s)
unfolding place_candidate
place_candidate-IsPlaced i c (refuse why, evidence) s h = record {
  eligible_from = IsFrom-suc i s.eligible h.eligible_from;
  deferred_from = IsFrom-suc i s.deferred h.deferred_from;
}
place_candidate-IsPlaced i c (defer domain, evidence) s h = record {
  eligible_from = IsFrom-suc i s.eligible h.eligible_from;
  deferred_from = (omega arith, IsFrom-suc i s.deferred h.deferred_from);
}
place_candidate-IsPlaced i c (accept domain, evidence) s h = record {
  eligible_from = (omega arith, IsFrom-suc i s.eligible h.eligible_from);
  deferred_from = IsFrom-suc i s.deferred h.deferred_from;
}

sort_candidates-IsPlaced :
    (input : RouteInput) (i : ℕ) (cs : List RouteCandidate)
    → IsPlaced i (sort_candidates input i cs)
unfolding sort_candidates
sort_candidates-IsPlaced input i [] = record { eligible_from = tt; deferred_from = tt }
sort_candidates-IsPlaced input i (c ∷ cs) =
    place_candidate-IsPlaced i c (judge input c) (sort_candidates input (suc i) cs)
      (sort_candidates-IsPlaced input (suc i) cs)

none_before :
    (i : ℕ) (ps : List Placed) → IsFrom i ps → is_empty (filter (λ d. ltb d.place i) ps) ≡ true
none_before i [] h = refl
none_before i (p ∷ ps) h = ground (arith, none_before i ps h.1)

abbrev chosen_candidate : Bool → Sorted → Option RouteCandidate
chosen_candidate waits s = Option.map (λ (p : Placed). p.candidate) (chosen_of waits s)

place-chosen :
    (waits : Bool) (i : ℕ) (c : RouteCandidate) (v : Verdict × List EligibilityEvidence)
    (s : Sorted)
    → IsPlaced (suc i) s
    → chosen_candidate waits (place_candidate i c v s) ≡ elim v.0 [
      | refuse why ↦ chosen_candidate waits s
      | defer domain ↦ if waits then none else chosen_candidate waits s
      | accept domain ↦ some c
    ]
unfolding place_candidate chosen_of
place-chosen waits i c (refuse why, evidence) s h = refl
place-chosen waits i c (defer domain, evidence) s h = elim (List-cases s.eligible) [
  | inl none_left ↦ ground (arith, none_left)
  | inr (p, ps, at) ↦
      let later : IsFrom (suc i) (p ∷ ps) = subst (IsFrom (suc i)) at h.eligible_from in
      elim (Bool-cases waits) [
        | inl holds ↦ ground (arith, at, later.0)
        | inr passes ↦ ground (arith, at)
      ]
]
place-chosen waits i c (accept domain, evidence) s h =
    ground (arith, none_before i s.deferred (IsFrom-suc i s.deferred h.deferred_from))

chosen-pick :
    (input : RouteInput) (i : ℕ) (cs : List RouteCandidate)
    → chosen_candidate input.waits (sort_candidates input i cs) ≡ pick input cs
unfolding sort_candidates chosen_of pick
chosen-pick input i [] = ground arith
chosen-pick input i (c ∷ cs) = ground (
  arith,
  place-chosen input.waits i c (judge input c) (sort_candidates input (suc i) cs)
      (sort_candidates-IsPlaced input (suc i) cs),
  chosen-pick input (suc i) cs,
)

-- The candidate is accepted, none before it is, and where a busy one is waited for none before it is busy.
pub record IsFirst (input : RouteInput) (cs : List RouteCandidate) (c : RouteCandidate)
    : Type 0 where
  pub before : List RouteCandidate
  pub after : List RouteCandidate
  pub split : cs ≡ before ++ c ∷ after
  pub accepted : is_accepted (verdict_on input c) ≡ true
  pub none_accepted : All (λ b. is_accepted (verdict_on input b) ≡ false) before
  pub none_busy : input.waits ≡ true → All (λ b. is_busy (verdict_on input b) ≡ false) before

IsFirst-cons :
    (input : RouteInput) (b : RouteCandidate) (cs : List RouteCandidate) (c : RouteCandidate)
    → is_accepted (verdict_on input b) ≡ false
    → (input.waits ≡ true → is_busy (verdict_on input b) ≡ false)
    → IsFirst input cs c
    → IsFirst input (b ∷ cs) c
IsFirst-cons input b cs c open_no busy_no h = record {
  before = b ∷ h.before;
  after = h.after;
  split = ap (λ xs. b ∷ xs) h.split;
  accepted = h.accepted;
  none_accepted = (open_no, h.none_accepted);
  none_busy = λ w. (busy_no w, h.none_busy w);
}

pick-IsFirst :
    (input : RouteInput) (cs : List RouteCandidate) (c : RouteCandidate)
    → pick input cs ≡ some c
    → IsFirst input cs c
unfolding pick
pick-IsFirst input [] c h = cc
pick-IsFirst input (b ∷ cs) c h = elim (Verdict-cases (verdict_on input b)) [
  | inl (why, at) ↦
      IsFirst-cons input b cs c (ground arith) (λ w. ground arith)
        (pick-IsFirst input cs c (ground arith))
  | inr (inl (domain, at)) ↦ elim (Bool-cases input.waits) [
    | inl holds ↦ absurd (ground arith)
    | inr passes ↦
        IsFirst-cons input b cs c (ground arith) (λ w. ground arith)
          (pick-IsFirst input cs c (ground arith))
  ]
  | inr (inr (domain, at)) ↦
      let e : b ≡ c = ground arith in
      record {
        before = [];
        after = cs;
        split = ap (λ x. x ∷ cs) e;
        accepted = subst (λ x. is_accepted (verdict_on input x) ≡ true) e (ground arith);
        none_accepted = tt;
        none_busy = λ w. tt;
      }
]

IsFirst-pick :
    (input : RouteInput) (before after : List RouteCandidate) (c : RouteCandidate)
    → is_accepted (verdict_on input c) ≡ true
    → All (λ b. is_accepted (verdict_on input b) ≡ false) before
    → (input.waits ≡ true → All (λ b. is_busy (verdict_on input b) ≡ false) before)
    → pick input (before ++ c ∷ after) ≡ some c
unfolding pick
IsFirst-pick input [] after c h n b = elim (Verdict-cases (verdict_on input c)) [
  | inl (why, at) ↦ ground arith
  | inr (inl (domain, at)) ↦ ground arith
  | inr (inr (domain, at)) ↦ ground arith
]
IsFirst-pick input (x ∷ before) after c h n b =
    let rest = IsFirst-pick input before after c h n.1 (λ w. (b w).1) in
    elim (Verdict-cases (verdict_on input x)) [
      | inl (why, at) ↦ ground (arith, rest)
      | inr (inl (domain, at)) ↦ elim (Bool-cases input.waits) [
        | inl holds ↦ absurd (ground (arith, (b holds).0))
        | inr passes ↦ ground (arith, rest)
      ]
      | inr (inr (domain, at)) ↦ absurd (ground (arith, n.0))
    ]

-- A candidate is chosen exactly when it is accepted and stands in the list of candidates behind none
-- that is accepted and, where the input asks to wait, behind none that is only busy.
pub chosen_iff :
    (input : RouteInput) (class : TaskClass) (c : RouteCandidate)
    → ((select_for input class).chosen ≡ some c)
      ↔ IsFirst input (candidates_of input (policy_routes input class)) c
unfolding select_for
chosen_iff input class c =
    let cs = candidates_of input (policy_routes input class) in
    let same = chosen-pick input 0 cs in
    (
      λ h. pick-IsFirst input cs c (sym same ∙ h),
      λ h.
          same
          ∙ ap (pick input) h.split
          ∙ IsFirst-pick input h.before h.after c h.accepted h.none_accepted h.none_busy,
    )
