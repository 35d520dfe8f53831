-- ===== src/Plan/Graph/Dependency.antt =====
-- src/domain/plan.ts: `hasDependencyPath` ends and decides whether one task depends on another.
use multi_agent_build_system.Prelude.{
  ℕ, zero, suc, ◌<◌, String, ◌≡◌, refl, sym, subst, ◌≢◌, ◌↔◌, inl, inr, Bool, true, false, some,
  List, [], ◌∷◌, arith, str_eq, str_eq_iff, Bool-cases, length, includes,
}
use multi_agent_build_system.Plan.Graph.{any_path, path_from, has_dependency_path}
use multi_agent_build_system.Plan.Graph.Sets.{left_out, left_out_le, left_out_grow, left_out_less}
use multi_agent_build_system.Plan.Graph.Paths.{
  DependsOn, itself, via, HasDeps, Searched, Searched-nil, Ends, any_path-Ends, Searched-target,
  Searched-seen, Searched-below,
}

abbrev HasNoDeps : List String → (String → List String) → Type 0
HasNoDeps keys deps = (k : String) → includes keys k ≡ false → deps k ≡ []

-- A key of the plan uses one unit of the fuel up, and any other key has no dependencies.
any_path-below :
    (keys : List String) (deps : String → List String) (to : String)
    → HasNoDeps keys deps
    → (n : ℕ)
    → ((k : String) (seen : List String)
        → left_out keys seen < n
        → Ends deps to (k ∷ []) seen (path_from deps to n k seen))
    → (key : String) (seen : List String) → left_out keys seen < suc n
    → includes seen key ≡ false
    → Ends deps to (deps key) (key ∷ seen) (any_path (path_from deps to n) (deps key) (key ∷ seen))
unfolding any_path
any_path-below keys deps to bare n ends key seen h fresh = elim (Bool-cases (includes keys key)) [
  | inl known ↦
      let less : left_out keys (key ∷ seen) < n =
        omega (arith, left_out_less keys seen key known fresh) in
      any_path-Ends deps to (path_from deps to n) (key ∷ seen)
        (λ k s grows. ends k s (omega (arith, less, left_out_grow keys (key ∷ seen) s grows)))
        (deps key) (key ∷ seen) (λ d m. m)
  | inr unknown ↦
      subst (λ ks. Ends deps to ks (key ∷ seen) (any_path (path_from deps to n) ks (key ∷ seen)))
        (sym (bare key unknown)) (false, key ∷ seen, refl, Searched-nil deps to (key ∷ seen))
]

-- The fuel that is left covers the keys that were not seen.
path_from-Ends :
    (keys : List String) (deps : String → List String) (to : String)
    → HasNoDeps keys deps
    → (n : ℕ) (key : String) (seen : List String) → left_out keys seen < n
    → Ends deps to (key ∷ []) seen (path_from deps to n key seen)
unfolding path_from
path_from-Ends keys deps to bare zero key seen h = absurd (omega arith)
path_from-Ends keys deps to bare (suc n) key seen h = elim (Bool-cases (str_eq key to)) [
  | inl hit ↦
      (true, seen, ground arith, Searched-target deps to key seen ((str_eq_iff key to).0 hit))
  | inr apart ↦
      let differs : key ≢ to = ground (arith, str_eq_iff key to) in
      elim (Bool-cases (includes seen key)) [
        | inl old ↦ (false, seen, ground arith, Searched-seen deps to key seen old)
        | inr fresh ↦
            let (found, s, at, b) =
              any_path-below keys deps to bare n (λ k s. path_from-Ends keys deps to bare n k s) key
                seen h fresh in
            (found, s, ground (arith, at), Searched-below deps to key differs b)
      ]
]

-- What is closed under dependencies and has the start has all that the start depends on.
closed-DependsOn :
    (deps : String → List String) (s : List String)
    → ((d : String) → includes s d ≡ true → HasDeps deps s d)
    → {a b : String} → DependsOn deps a b
    → includes s a ≡ true
    → includes s b ≡ true
closed-DependsOn deps s closed itself h = h
closed-DependsOn deps s closed (via {a} {b} {c} e rest) h =
    closed-DependsOn deps s closed rest (closed a h b e)

missed-DependsOn :
    (deps : String → List String) (from to : String) (s : List String)
    → Searched deps to (from ∷ []) [] false s
    → ¬ DependsOn deps from to
missed-DependsOn deps from to s b path =
    let closed : (d : String) → includes s d ≡ true → HasDeps deps s d =
      λ d m. elim (b.closed refl d m) [ inl old ↦ cc | inr h ↦ h ] in
    let has : includes s to ≡ true = closed-DependsOn deps s closed path (b.reached refl).0 in
    let misses : includes s to ≡ false = b.missed refl refl in cc

-- Where a key that the plan does not have has no dependencies, the search for a dependency path ends,
-- and it finds one exactly when the first task depends on the second, at once or through others.
pub has_dependency_path_iff :
    (keys : List String) (deps : String → List String) (from to : String)
    → ((k : String) → includes keys k ≡ false → deps k ≡ [])
    → (found : Bool) × (has_dependency_path keys deps from to ≡ some found)
      × ((found ≡ true) ↔ DependsOn deps from to)
unfolding has_dependency_path
has_dependency_path_iff keys deps from to bare =
    let (found, s, at, b) =
      path_from-Ends keys deps to bare (suc (length keys)) from []
        (omega (arith, left_out_le keys [])) in
    (
      found,
      ground (arith, at),
      (
        λ hit.
            let (k, m, path) = b.target hit in
            subst (λ x. DependsOn deps x to) (sym ((str_eq_iff from k).0 (ground arith))) path,
        λ path. elim (Bool-cases found) [
          | inl hit ↦ hit
          | inr miss ↦ absurd (
              missed-DependsOn deps from to s
                (subst (λ f. Searched deps to (from ∷ []) [] f s) miss b) path)
        ],
      ),
    )
