-- ===== src/Scheduling/Concurrency.antt =====
-- src/scheduling/admission.ts: `AdaptiveConcurrency`. The ceiling, the floor and the streak are the
-- naturals that the callers pass.
use multi_agent_build_system.Prelude.{
  ℕ, ◌+◌, ◌-◌, ◌≤◌, min, max, ◌≡◌, Bool, true, false, ◌&&◌, Option, List, [], ◌∷◌, arith, ltb, leb,
  if◌then◌else◌, or_default,
}

pub record AdaptiveConcurrency : Type 0 where
  pub ceiling : ℕ
  pub floor : ℕ
  pub raise_after : ℕ
  pub current : ℕ
  pub healthy_streak : ℕ

unfoldable pub new_concurrency : ℕ → Option ℕ → Option ℕ → AdaptiveConcurrency
new_concurrency ceiling floor raise_after = record {
  ceiling = ceiling;
  floor = min ceiling (max 1 (or_default floor 1));
  raise_after = max 1 (or_default raise_after 30);
  current = ceiling;
  healthy_streak = 0;
}

unfoldable pub observe : Bool → AdaptiveConcurrency → AdaptiveConcurrency
observe true c = record c { healthy_streak = 0; current = max c.floor (c.current - 1) }
observe false c =
    if leb c.raise_after (c.healthy_streak + 1) && ltb c.current c.ceiling
    then record c { current = c.current + 1; healthy_streak = 0 }
    else record c { healthy_streak = c.healthy_streak + 1 }

unfoldable pub observe_all : List Bool → AdaptiveConcurrency → AdaptiveConcurrency
unfolding observe
observe_all [] c = c
observe_all (p ∷ ps) c = observe_all ps (observe p c)

abbrev pub IsBounded : AdaptiveConcurrency → Type 0
IsBounded c = (c.floor ≤ c.current) × (c.current ≤ c.ceiling)

-- The bounds that the constructor fixes, and the target between them.
abbrev pub IsTarget : ℕ → ℕ → AdaptiveConcurrency → Type 0
IsTarget floor ceiling c = (c.floor ≡ floor) × (c.ceiling ≡ ceiling) × IsBounded c

observe-IsTarget :
    (p : Bool) (floor ceiling : ℕ) (c : AdaptiveConcurrency)
    → IsTarget floor ceiling c
    → IsTarget floor ceiling (observe p c)
unfolding observe
observe-IsTarget true floor ceiling c h = ground arith
observe-IsTarget false floor ceiling c h = ground arith

observe_all-IsTarget :
    (ps : List Bool) (floor ceiling : ℕ) (c : AdaptiveConcurrency)
    → IsTarget floor ceiling c
    → IsTarget floor ceiling (observe_all ps c)
unfolding observe_all
observe_all-IsTarget [] floor ceiling c h = h
observe_all-IsTarget (p ∷ ps) floor ceiling c h =
    observe_all-IsTarget ps floor ceiling (observe p c) (observe-IsTarget p floor ceiling c h)

-- Whatever pressure is observed, the target of concurrent workers never passes the ceiling that was
-- approved and never falls below the floor, which is at least one where the ceiling is.
pub target_bounds :
    (ps : List Bool) (ceiling : ℕ) (floor raise_after : Option ℕ)
    → (1 ≤ ceiling)
    → (1 ≤ (observe_all ps (new_concurrency ceiling floor raise_after)).current)
      × (min ceiling (max 1 (or_default floor 1))
          ≤ (observe_all ps (new_concurrency ceiling floor raise_after)).current)
      × ((observe_all ps (new_concurrency ceiling floor raise_after)).current ≤ ceiling)
unfolding new_concurrency
target_bounds ps ceiling floor raise_after h = ground (
  arith,
  observe_all-IsTarget ps (min ceiling (max 1 (or_default floor 1))) ceiling
      (new_concurrency ceiling floor raise_after),
)
