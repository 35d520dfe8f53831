-- ===== src/Plan/Graph.antt =====
-- src/domain/plan.ts: the searches of the dependency graph, `hasDependencyPath` and the depth-first
-- `visit` of `validateExecutionPlan`. A search that recurs through the graph takes fuel, and `none`
-- says that the fuel ran out.
pub mod Sets
pub mod Fuel
pub mod Order
pub mod Cycles
pub mod Topological
pub mod Paths
pub mod Dependency
use mathlib.Core.Option
use multi_agent_build_system.Prelude.{
  ℕ, zero, suc, String, Bool, true, false, Option, none, some, List, [], ◌∷◌, ◌++◌, str_eq,
  if◌then◌else◌, length, filter, includes,
}

-- `set.delete(key)`
unfoldable pub remove : String → List String → List String
remove key [] = []
remove key (k ∷ ks) = let rest = remove key ks in if str_eq k key then rest else k ∷ rest

-- The variables that `visit` changes; `visited` has the last key first, and a cycle is the path that
-- its message prints.
pub record Walk : Type 0 where
  pub visiting : List String
  pub visited : List String
  pub order : List String
  pub cycles : List (List String)

abbrev pub enter : String → Walk → Walk
enter key w = record w { visiting = key ∷ w.visiting }

abbrev pub leave : String → Walk → Walk
leave key w = record w {
  visiting = remove key w.visiting;
  visited = key ∷ w.visited;
  order = w.order ++ key ∷ [];
}

abbrev pub report : List String → Walk → Walk
report cycle w = record w { cycles = w.cycles ++ cycle ∷ [] }

-- `for (const key of keys) visit(key)`
unfoldable pub visit_all : (String → Walk → Option Walk) → List String → Walk → Option Walk
visit_all go [] w = some w
visit_all go (k ∷ ks) w = elim (go k w) [ none ↦ none | some w' ↦ visit_all go ks w' ]

abbrev pub unvisited : Walk
unvisited = record { visiting = []; visited = []; order = []; cycles = [] }

-- `keys` are the keys of `byKey`, and `deps` is `dependencies.get(key) ?? []`.
module _ (keys : List String) (deps : String → List String) where
  abbrev pub known_deps : String → List String
  known_deps key = filter (includes keys) (deps key)

  unfoldable pub visit : ℕ → List String → String → Walk → Option Walk
  unfolding remove visit_all
  visit zero path key w = none
  visit (suc n) path key w =
      let below = visit_all (visit n (path ++ key ∷ [])) (known_deps key) (enter key w) in
      if includes w.visited key
      then some w
      else if includes w.visiting key
      then some (report (path ++ key ∷ []) w)
      else Option.map (leave key) below

  -- `for (const key of byKey.keys()) visit(key, [])`
  unfoldable pub walk : Option Walk
  unfolding visit visit_all
  walk = visit_all (visit (suc (length keys)) []) keys unvisited

-- `keys.some(visit)`, with the set `seen` that `visit` extends
unfoldable pub any_path :
    (String → List String → Option (Bool × List String))
    → List String
    → List String
    → Option (Bool × List String)
any_path go [] seen = some (false, seen)
any_path go (k ∷ ks) seen = elim (go k seen) [
  | none ↦ none
  | some (found, seen') ↦
      let rest = any_path go ks seen' in if found then some (true, seen') else rest
]

module _ (deps : String → List String) (to : String) where
  unfoldable pub path_from : ℕ → String → List String → Option (Bool × List String)
  unfolding any_path
  path_from zero key seen = none
  path_from (suc n) key seen =
      let rest = any_path (path_from n) (deps key) (key ∷ seen) in
      if str_eq key to
      then some (true, seen)
      else if includes seen key
      then some (false, seen)
      else rest

-- Fuel for each key, and one more for a key that was seen or that the plan does not have.
unfoldable pub has_dependency_path :
    List String → (String → List String) → String → String → Option Bool
unfolding path_from any_path
has_dependency_path keys deps from to =
    Option.map (λ r. r.0) (path_from deps to (suc (length keys)) from [])
