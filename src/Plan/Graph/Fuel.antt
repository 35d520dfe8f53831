-- ===== src/Plan/Graph/Fuel.antt =====
-- src/domain/plan.ts: the depth-first search of `validateExecutionPlan` ends within its fuel.
use multi_agent_build_system.Prelude.{
  ℕ, zero, suc, ◌<◌, String, ◌≡◌, refl, sym, ◌∙◌, subst, inl, inr, true, Option, some, List, [],
  ◌∷◌, ◌++◌, arith, Bool-cases, length, All, includes,
}
use multi_agent_build_system.Plan.Graph.{
  Walk, enter, leave, report, visit_all, unvisited, known_deps, visit, walk,
}
use multi_agent_build_system.Plan.Graph.Sets.{left_out, left_out_le, left_out_less}
use multi_agent_build_system.Plan.Graph.Order.{known_deps_lem, visit-Visits}

-- A list is visited to its end where each visit ends and leaves the stack as it was.
visit_all_ends :
    (keys stack : List String) (go : String → Walk → Option Walk)
    → ((k : String) (w : Walk)
        → includes keys k ≡ true
        → w.visiting ≡ stack
        → (w' : Walk) × (go k w ≡ some w') × (w'.visiting ≡ stack))
    → (ks : List String) (w : Walk) → All (λ k. includes keys k ≡ true) ks
    → w.visiting ≡ stack
    → (w' : Walk) × (visit_all go ks w ≡ some w')
unfolding visit_all
visit_all_ends keys stack go ends [] w known at = (w, refl)
visit_all_ends keys stack go ends (k ∷ ks) w (here, others) at =
    let (u, went, back) = ends k w here at in
    let (w', rest) = visit_all_ends keys stack go ends ks u others back in
    (w', ground (arith, went, rest))

module _ (keys : List String) (deps : String → List String) where
  pub visit_ends :
      (n : ℕ) (path : List String) (key : String) (w : Walk)
      → includes keys key ≡ true
      → left_out keys w.visiting < n
      → (w' : Walk) × (visit keys deps n path key w ≡ some w') × (w'.visiting ≡ w.visiting)
  unfolding visit
  visit_ends zero path key w known h = absurd (omega arith)
  visit_ends (suc n) path key w known h = elim (Bool-cases (includes w.visited key)) [
    | inl old ↦ (w, ground arith, refl)
    | inr fresh ↦ elim (Bool-cases (includes w.visiting key)) [
      | inl inside ↦ (report (path ++ key ∷ []) w, ground arith, refl)
      | inr outside ↦
          let stack : List String = key ∷ w.visiting in
          let enough : left_out keys stack < n =
            omega (arith, left_out_less keys w.visiting key known outside) in
          let go : String → Walk → Option Walk = visit keys deps n (path ++ key ∷ []) in
          let (v, below) =
            visit_all_ends keys stack go
              (λ k u m at.
                let (u', went, back) =
                  visit_ends n (path ++ key ∷ []) k u m
                    (subst (λ s. left_out keys s < n) (sym at) enough) in
                (u', went, back ∙ at))
              (known_deps keys deps key) (enter key w) (known_deps_lem keys deps key) refl in
          (
            leave key v,
            ground arith,
            (visit-Visits keys deps (suc n) path key w (leave key v) known (ground arith)).stacked,
          )
    ]
  ]

  pub walk_ends : All (λ k. includes keys k ≡ true) keys → (w : Walk) × (walk keys deps ≡ some w)
  unfolding walk
  walk_ends known =
      visit_all_ends keys [] (visit keys deps (suc (length keys)) [])
        (λ k u m at.
          let (u', went, back) =
            visit_ends (suc (length keys)) [] k u m (omega (arith, left_out_le keys u.visiting)) in
          (u', went, back ∙ at))
        keys unvisited known refl
