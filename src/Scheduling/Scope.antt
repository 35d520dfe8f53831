-- ===== src/Scheduling/Scope.antt =====
-- src/domain/plan.ts: `normalizeScope`, `pathInScope` and `scopesOverlap`. A path is the list of its
-- code points; the regular expressions are written out on the end of the path, read backwards.
pub mod Disjoint
use multi_agent_build_system.Prelude.{
  ℕ, Bool, true, false, ◌&&◌, ◌||◌, List, [], ◌∷◌, ◌++◌, ◌==◌, if◌then◌else◌, is_empty, any,
  is_space,
}

reverse_onto : List ℕ → List ℕ → List ℕ
reverse_onto [] ys = ys
reverse_onto (x ∷ xs) ys = reverse_onto xs (x ∷ ys)

drop_spaces : List ℕ → List ℕ
drop_spaces [] = []
drop_spaces (c ∷ cs) = let rest = drop_spaces cs in if is_space c then rest else c ∷ cs

-- `.replaceAll("\\", "/")`
unfoldable pub slashes : List ℕ → List ℕ
slashes [] = []
slashes (c ∷ cs) = (if c == 92 then 47 else c) ∷ slashes cs

-- `.replace(/^\.\//, "")`
unfoldable pub drop_dot_slash : List ℕ → List ℕ
drop_dot_slash (a ∷ b ∷ cs) = if a == 46 && b == 47 then cs else a ∷ b ∷ cs
drop_dot_slash cs = cs

-- `while (/(^|\/)\*\*?$/.test(value)) value = value.replace(/\/?\*\*?$/, "")`, on the reversed text
drop_globs : List ℕ → List ℕ
drop_globs [] = []
drop_globs (a ∷ []) = if a == 42 then [] else a ∷ []
drop_globs (a ∷ b ∷ []) = if a == 42 && (b == 47 || b == 42) then [] else a ∷ b ∷ []
drop_globs (a ∷ b ∷ c ∷ cs) = elim (a == 42 && b == 47) [
  | true ↦ drop_globs (c ∷ cs)
  | false ↦ elim (a == 42 && b == 42 && c == 47) [ true ↦ drop_globs cs | false ↦ a ∷ b ∷ c ∷ cs ]
]

-- `.replace(/\/+$/, "")`, on the reversed text
drop_slashes : List ℕ → List ℕ
drop_slashes [] = []
drop_slashes (c ∷ cs) = let rest = drop_slashes cs in if c == 47 then rest else c ∷ cs

-- `value === "." ? "" : value`
drop_dot : List ℕ → List ℕ
drop_dot (c ∷ []) = if c == 46 then [] else c ∷ []
drop_dot cs = cs

unfoldable pub normalize_scope : List ℕ → List ℕ
unfolding reverse_onto drop_spaces slashes drop_dot_slash drop_globs drop_slashes drop_dot
normalize_scope scope =
    let trimmed = reverse_onto (drop_spaces (reverse_onto (drop_spaces (slashes scope)) [])) [] in
    drop_dot
      (reverse_onto (drop_slashes (drop_globs (reverse_onto (drop_dot_slash trimmed) []))) [])

-- `a === b`
unfoldable pub path_eq : List ℕ → List ℕ → Bool
path_eq [] [] = true
path_eq [] (b ∷ ys) = false
path_eq (a ∷ xs) [] = false
path_eq (a ∷ xs) (b ∷ ys) = a == b && path_eq xs ys

-- `path.startsWith(prefix)`
unfoldable pub has_prefix : List ℕ → List ℕ → Bool
has_prefix path [] = true
has_prefix [] (p ∷ ps) = false
has_prefix (c ∷ cs) (p ∷ ps) = c == p && has_prefix cs ps

-- ``path.startsWith(`${scope}/`)``
abbrev pub lies_below : List ℕ → List ℕ → Bool
lies_below path scope = has_prefix path (scope ++ 47 ∷ [])

unfoldable pub path_in_scope : List ℕ → List ℕ → Bool
unfolding normalize_scope path_eq has_prefix
path_in_scope file scope =
    is_empty scope
    || path_eq (normalize_scope file) scope
    || lies_below (normalize_scope file) scope

unfoldable pub paths_overlap : List ℕ → List ℕ → Bool
unfolding path_eq has_prefix
paths_overlap x y = is_empty x || is_empty y || path_eq x y || lies_below x y || lies_below y x

unfoldable pub scopes_overlap : List (List ℕ) → List (List ℕ) → Bool
unfolding normalize_scope paths_overlap
scopes_overlap left right =
    if is_empty left || is_empty right
    then true
    else any (λ a. any (λ b. paths_overlap (normalize_scope a) (normalize_scope b)) right) left
