-- ===== src/Plan/Apart.antt =====
-- src/domain/plan.ts: what the checks of the dependencies and of the parallel tasks guarantee.
use multi_agent_build_system.Prelude.{
  ℕ, String, ◌≡◌, refl, ◌≢◌, ◌⊎◌, inl, inr, Bool, true, false, some, List, [], ◌∷◌, ◌++◌, arith,
  str_eq_iff, Bool-cases, is_empty, All, is_empty_parts, includes,
}
use multi_agent_build_system.Plan.Draft.{PlannedTask, PlanError}
use multi_agent_build_system.Plan.Validate.{
  keys_of, declared_deps, deps_of, dependency_check, each_dependency, dependency_errors, scope_of,
  overlap_error, is_ordered, pair_errors, parallel_errors,
}
use multi_agent_build_system.Plan.Graph.Paths.{DependsOn}
use multi_agent_build_system.Plan.Graph.Dependency.{has_dependency_path_iff}
use multi_agent_build_system.Scheduling.Scope.Disjoint.{covers, overlap_complete}

-- Each dependency of the task is another task of the plan.
abbrev pub KnowsDeps : List String → PlannedTask → Type 0
KnowsDeps keys t = All (λ d. (includes keys d ≡ true) × (d ≢ t.key)) (declared_deps t)

each_dependency-known :
    (keys : List String) (key : String) (ds : List String)
    → is_empty (each_dependency keys key ds) ≡ true
    → All (λ d. (includes keys d ≡ true) × (d ≢ key)) ds
unfolding each_dependency
each_dependency-known keys key [] h = tt
each_dependency-known keys key (d ∷ ds) h =
    let (here, others) =
      is_empty_parts (dependency_check keys key d) (each_dependency keys key ds) h in
    (
      (ground arith, λ e. ground (arith, str_eq_iff d key)),
      each_dependency-known keys key ds others,
    )

pub dependency_errors-KnowsDeps :
    (keys : List String) (ts : List PlannedTask)
    → is_empty (dependency_errors keys ts) ≡ true
    → All (KnowsDeps keys) ts
unfolding dependency_errors
dependency_errors-KnowsDeps keys [] h = tt
dependency_errors-KnowsDeps keys (t ∷ ts) h =
    let (here, others) =
      is_empty_parts (each_dependency keys t.key (declared_deps t)) (dependency_errors keys ts) h in
    (
      each_dependency-known keys t.key (declared_deps t) here,
      dependency_errors-KnowsDeps keys ts others,
    )

abbrev pub AllPairs : (PlannedTask → PlannedTask → Type 0) → List PlannedTask → Type 0
AllPairs R [] = Unit
AllPairs R (t ∷ ts) = All (R t) ts × AllPairs R ts

deps_of-unknown :
    (ts : List PlannedTask) (key : String) → includes (keys_of ts) key ≡ false → deps_of ts key ≡ []
unfolding deps_of
deps_of-unknown [] key h = refl
deps_of-unknown (t ∷ ts) key h = ground (arith, deps_of-unknown ts key)

module _ (by_key : List PlannedTask) where
  -- One of the tasks waits for the other, or they have no file in common.
  abbrev pub AreApart : PlannedTask → PlannedTask → Type 0
  AreApart left right =
      DependsOn (deps_of by_key) left.key right.key
      ⊎ DependsOn (deps_of by_key) right.key left.key
      ⊎ ((file : List ℕ)
          → covers (scope_of left) file ≡ true
          → covers (scope_of right) file ≡ false)

  abbrev Ordered : String → String → Type 0
  Ordered left right = DependsOn (deps_of by_key) left right ⊎ DependsOn (deps_of by_key) right left

  is_ordered_ends :
      (left right : String)
      → (ordered : Bool) × (is_ordered by_key left right ≡ some ordered)
        × (ordered ≡ true → Ordered left right)
  unfolding is_ordered
  is_ordered_ends left right =
      let (there, at, found) =
        has_dependency_path_iff (keys_of by_key) (deps_of by_key) left right
          (deps_of-unknown by_key) in
      let (back, at', found') =
        has_dependency_path_iff (keys_of by_key) (deps_of by_key) right left
          (deps_of-unknown by_key) in
      elim (Bool-cases there) [
        | inl hit ↦ (true, ground arith, λ e. inl (found.0 hit))
        | inr miss ↦ (back, ground arith, λ e. inr (found'.0 e))
      ]

  no_overlap :
      (left right : PlannedTask) (ordered : Bool)
      → (ordered ≡ true → Ordered left.key right.key)
      → is_empty (overlap_error left right ordered) ≡ true
      → AreApart left right
  no_overlap left right true found h = elim (found refl) [ inl p ↦ inl p | inr p ↦ inr (inl p) ]
  no_overlap left right false found h = inr (
      inr (λ file c. elim (Bool-cases (covers (scope_of right) file)) [
        | inl both ↦
            let overlap = overlap_complete (scope_of left) (scope_of right) file c both in
            absurd (ground arith)
        | inr misses ↦ misses
      ]))

  pair_errors_ends :
      (left : PlannedTask) (ts : List PlannedTask)
      → (es : List PlanError) × (pair_errors by_key left ts ≡ some es)
        × (is_empty es ≡ true → All (AreApart left) ts)
  unfolding pair_errors
  pair_errors_ends left [] = ([], refl, λ e. tt)
  pair_errors_ends left (right ∷ ts) =
      let (ordered, at, found) = is_ordered_ends left.key right.key in
      let (es, rest, apart) = pair_errors_ends left ts in
      (
        overlap_error left right ordered ++ es,
        ground (arith, at, rest),
        λ none_found.
            let (here, others) = is_empty_parts (overlap_error left right ordered) es none_found in
            (no_overlap left right ordered found here, apart others),
      )

  pub parallel_errors_ends :
      (ts : List PlannedTask)
      → (es : List PlanError) × (parallel_errors by_key ts ≡ some es)
        × (is_empty es ≡ true → AllPairs AreApart ts)
  unfolding parallel_errors
  parallel_errors_ends [] = ([], refl, λ e. tt)
  parallel_errors_ends (left ∷ ts) =
      let (es, at, apart) = pair_errors_ends left ts in
      let (more, rest, others_apart) = parallel_errors_ends ts in
      (
        es ++ more,
        ground (arith, at, rest),
        λ none_found.
            let (here, others) = is_empty_parts es more none_found in
            (apart here, others_apart others),
      )
