-- ===== src/Plan/Graph/Topological.antt =====
-- src/domain/plan.ts: the topological order and the cycles of `validateExecutionPlan`.
use multi_agent_build_system.Prelude.{
  String, ◌≡◌, refl, subst, true, ◌||◌, some, List, [], ◌∷◌, arith, All, All-map, includes,
}
use multi_agent_build_system.Plan.Graph.{Walk, unvisited, walk}
use multi_agent_build_system.Plan.Graph.Order.{onto, IsOrdered, IsSorted, walk-Visits}
use multi_agent_build_system.Plan.Graph.Fuel.{walk_ends}
use multi_agent_build_system.Plan.Graph.Cycles.{IsCycle, walk-IsCycle}
use multi_agent_build_system.Plan.Graph.Sets.{includes_self}

includes-onto :
    (ks seen : List String) (a : String)
    → includes (onto ks seen) a ≡ true
    → (includes ks a || includes seen a) ≡ true
includes-onto [] seen a h = h
includes-onto (k ∷ ks) seen a h = ground (arith, includes-onto ks (k ∷ seen) a h)

module _ (keys : List String) (deps : String → List String) where
  unvisited-IsSorted : IsSorted keys deps unvisited
  unvisited-IsSorted = record { same = refl; ordered = tt; apart = λ d h. cc }

  -- Each key of the plan has its place in the order, after every key of the plan that it depends on, and
  -- the order has nothing else and nothing twice.
  pub record IsTopological (order : List String) : Type 0 where
    pub ordered : IsOrdered keys deps [] order
    pub complete : All (λ k. includes order k ≡ true) keys

  complete_order :
      (w : Walk)
      → w.visited ≡ onto w.order []
      → All (λ k. includes w.visited k ≡ true) keys
      → All (λ k. includes w.order k ≡ true) keys
  complete_order w same =
      All-map
        (λ k h.
          let at : includes (onto w.order []) k ≡ true = subst (λ v. includes v k ≡ true) same h in
          ground (arith, includes-onto w.order [] k at))
        keys

  -- The depth-first search of a plan ends, every cycle that it reports is a chain of dependencies that
  -- comes back to itself, and if it reports none the order that it leaves has every key of the plan
  -- once, after all the keys of the plan that it depends on, and nothing else.
  pub walk-IsTopological :
      (w : Walk) × (walk keys deps ≡ some w)
      × All (IsCycle keys deps) w.cycles
      × (w.cycles ≡ [] → IsTopological w.order)
  walk-IsTopological =
      let known = includes_self keys in
      let (w, at) = walk_ends keys deps known in
      let v = walk-Visits keys deps w at known in
      (
        w,
        at,
        walk-IsCycle keys deps w at known,
        λ none_found.
            let s = v.sorts none_found unvisited-IsSorted in
            record {
              ordered = s.ordered;
              complete = complete_order w s.same (v.reaches none_found);
            },
      )
