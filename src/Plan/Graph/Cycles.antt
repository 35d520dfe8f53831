-- ===== src/Plan/Graph/Cycles.antt =====
-- src/domain/plan.ts: the dependency cycles that `visit` reports.
use multi_agent_build_system.Prelude.{
  ℕ, zero, suc, String, ◌≡◌, refl, sym, ◌∙◌, subst, inl, inr, true, Option, some, List, [], ◌∷◌,
  ◌++◌, arith, Bool-cases, Option-cases, length, All, All-map, includes,
}
use multi_agent_build_system.Plan.Graph.{
  Walk, enter, leave, report, visit_all, unvisited, known_deps, visit, walk,
}
use multi_agent_build_system.Plan.Graph.Order.{visit-Visits}
use multi_agent_build_system.Plan.Graph.Sets.{includes-append, filter-both}

module _ (keys : List String) (deps : String → List String) where
  -- Each key of the list depends on the next.
  abbrev pub IsChain : List String → Type 0
  IsChain [] = Unit
  IsChain (a ∷ []) = Unit
  IsChain (a ∷ b ∷ ks) = (includes (deps a) b ≡ true) × IsChain (b ∷ ks)

  -- A chain of dependencies that comes back to a key that it went through.
  pub record IsCycle (cycle : List String) : Type 0 where
    pub path : List String
    pub key : String
    pub shape : cycle ≡ path ++ key ∷ []
    pub again : includes path key ≡ true
    pub chain : IsChain cycle

  IsChain-snoc :
      (path : List String) (a b : String)
      → IsChain (path ++ a ∷ [])
      → includes (deps a) b ≡ true
      → IsChain ((path ++ a ∷ []) ++ b ∷ [])
  IsChain-snoc [] a b c h = (h, tt)
  IsChain-snoc (x ∷ []) a b c h = (c.0, (h, tt))
  IsChain-snoc (x ∷ y ∷ path) a b c h = (c.0, IsChain-snoc (y ∷ path) a b c.1 h)

  All-snoc :
      (cs : List (List String)) (c : List String)
      → All IsCycle cs
      → IsCycle c
      → All IsCycle (cs ++ c ∷ [])
  All-snoc [] c hs h = (h, tt)
  All-snoc (x ∷ cs) c hs h = (hs.0, All-snoc cs c hs.1 h)

  abbrev Within : List String → List String → Type 0
  Within stack path = (d : String) → includes stack d ≡ true → includes path d ≡ true

  visit_all-IsCycle :
      (path stack : List String) (go : String → Walk → Option Walk)
      → ((k : String) (w w' : Walk)
          → includes keys k ≡ true
          → IsChain (path ++ k ∷ [])
          → w.visiting ≡ stack
          → go k w ≡ some w'
          → All IsCycle w.cycles
          → All IsCycle w'.cycles × (w'.visiting ≡ stack))
      → (ks : List String) (w w' : Walk)
      → All (λ k. (includes keys k ≡ true) × IsChain (path ++ k ∷ [])) ks
      → w.visiting ≡ stack
      → visit_all go ks w ≡ some w'
      → All IsCycle w.cycles
      → All IsCycle w'.cycles
  unfolding visit_all
  visit_all-IsCycle path stack go step [] w w' hs at e c =
      let e : w ≡ w' = ground arith in subst (λ (v : Walk). All IsCycle v.cycles) e c
  visit_all-IsCycle path stack go step (k ∷ ks) w w' ((known, chain), hs) at e c =
      elim (Option-cases (go k w)) [
        | inl failed ↦ absurd (ground arith)
        | inr (u, went) ↦
            let (cu, back) = step k w u known chain at went c in
            visit_all-IsCycle path stack go step ks u w' hs back (ground arith) cu
      ]

  known_deps-IsChain :
      (path : List String) (key : String) (ks : List String)
      → IsChain (path ++ key ∷ [])
      → All (λ d. (includes keys d ≡ true) × (includes (deps key) d ≡ true)) ks
      → All (λ k. (includes keys k ≡ true) × IsChain ((path ++ key ∷ []) ++ k ∷ [])) ks
  known_deps-IsChain path key ks c h = All-map (λ d m. (m.0, IsChain-snoc path key d c m.1)) ks h

  visit-IsCycle :
      (n : ℕ) (path : List String) (key : String) (w w' : Walk)
      → includes keys key ≡ true
      → IsChain (path ++ key ∷ [])
      → Within w.visiting path
      → visit keys deps n path key w ≡ some w'
      → All IsCycle w.cycles
      → All IsCycle w'.cycles
  unfolding visit
  visit-IsCycle zero path key w w' known chain within h c = cc
  visit-IsCycle (suc n) path key w w' known chain within h c =
      elim (Bool-cases (includes w.visited key)) [
        | inl old ↦ let e : w ≡ w' = ground arith in subst (λ (v : Walk). All IsCycle v.cycles) e c
        | inr fresh ↦ elim (Bool-cases (includes w.visiting key)) [
          | inl inside ↦
              let e : report (path ++ key ∷ []) w ≡ w' = ground arith in
              subst (λ (v : Walk). All IsCycle v.cycles) e
                (All-snoc w.cycles (path ++ key ∷ []) c (record {
                  path = path;
                  key = key;
                  shape = refl;
                  again = within key inside;
                  chain = chain;
                }))
          | inr outside ↦
              elim (Option-cases (
                visit_all (visit keys deps n (path ++ key ∷ [])) (known_deps keys deps key)
                  (enter key w))) [
                    | inl failed ↦ absurd (ground arith)
                    | inr (v, below) ↦
                        let e : leave key v ≡ w' = ground arith in
                        subst (λ (x : Walk). All IsCycle x.cycles) e
                          (visit_all-IsCycle (path ++ key ∷ []) (key ∷ w.visiting)
                            (visit keys deps n (path ++ key ∷ []))
                            (λ k u u' m ch at went cu. (
                              visit-IsCycle n (path ++ key ∷ []) k u u' m ch
                                  (subst (λ s. Within s (path ++ key ∷ [])) (sym at)
                                    (λ d q.
                                      ground (arith, includes-append path (key ∷ []) d, within d)))
                                  went cu,
                              (visit-Visits keys deps n (path ++ key ∷ []) k u u' m went).stacked
                                  ∙ at,
                            ))
                            (known_deps keys deps key) (enter key w) v
                            (known_deps-IsChain path key (known_deps keys deps key) chain
                              (filter-both (includes keys) (deps key)))
                            refl below c)
                  ]
        ]
      ]

  pub walk-IsCycle :
      (w : Walk)
      → walk keys deps ≡ some w
      → All (λ k. includes keys k ≡ true) keys
      → All (IsCycle) w.cycles
  unfolding walk
  walk-IsCycle w h known =
      visit_all-IsCycle [] [] (visit keys deps (suc (length keys)) [])
        (λ k u u' m ch at went c. (
          visit-IsCycle (suc (length keys)) [] k u u' m ch
              (subst (λ s. Within s []) (sym at) (λ d q. q)) went c,
          (visit-Visits keys deps (suc (length keys)) [] k u u' m went).stacked ∙ at,
        ))
        keys unvisited w
        (All-map {Q = λ k. (includes keys k ≡ true) × IsChain (k ∷ [])} (λ k m. (m, tt)) keys known)
        refl h tt
