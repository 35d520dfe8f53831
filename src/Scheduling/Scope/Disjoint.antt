-- ===== src/Scheduling/Scope/Disjoint.antt =====
-- src/domain/plan.ts: scopes that do not overlap share no file.
use multi_agent_build_system.Prelude.{
  ℕ, ◌≡◌, refl, Bool, true, false, ◌&&◌, ◌||◌, List, [], ◌∷◌, arith, ◌==◌, is_empty, any,
}
use multi_agent_build_system.Scheduling.Scope.{
  normalize_scope, path_eq, has_prefix, lies_below, path_in_scope, paths_overlap, scopes_overlap,
}

-- The path is the scope or lies below it.
under : List ℕ → List ℕ → Bool
under [] [] = true
under [] (c ∷ cs) = c == 47
under (s ∷ ss) [] = false
under (s ∷ ss) (c ∷ cs) = c == s && under ss cs

under_lem : (scope path : List ℕ) → under scope path ≡ (path_eq path scope || lies_below path scope)
unfolding under path_eq has_prefix
under_lem [] [] = ground arith
under_lem [] (c ∷ cs) = ground arith
under_lem (s ∷ ss) [] = ground arith
under_lem (s ∷ ss) (c ∷ cs) = ground (arith, under_lem ss cs)

-- Two scopes with a path under both lie one under the other.
under_both :
    (x y path : List ℕ)
    → under x path ≡ true
    → under y path ≡ true
    → (under x y || under y x) ≡ true
unfolding under
under_both [] [] path p q = refl
under_both [] (b ∷ y) [] p q = cc
under_both [] (b ∷ y) (c ∷ path) p q = ground arith
under_both (a ∷ x) [] [] p q = cc
under_both (a ∷ x) [] (c ∷ path) p q = ground arith
under_both (a ∷ x) (b ∷ y) [] p q = cc
under_both (a ∷ x) (b ∷ y) (c ∷ path) p q = ground (arith, under_both x y path)

path_eq_sym : (x y : List ℕ) → path_eq x y ≡ path_eq y x
unfolding path_eq
path_eq_sym [] [] = refl
path_eq_sym [] (b ∷ y) = refl
path_eq_sym (a ∷ x) [] = refl
path_eq_sym (a ∷ x) (b ∷ y) = ground (arith, path_eq_sym x y)

common_file-overlap :
    (file x y : List ℕ)
    → path_in_scope file x ≡ true
    → path_in_scope file y ≡ true
    → paths_overlap x y ≡ true
unfolding path_in_scope paths_overlap
common_file-overlap file x y p q = ground (
  arith,
  under_lem x (normalize_scope file),
  under_lem y (normalize_scope file),
  under_lem x y,
  under_lem y x,
  under_both x y (normalize_scope file),
  path_eq_sym x y,
)

-- The file lies in one of the scopes, or there are none and the whole repository is meant.
abbrev pub covers : List (List ℕ) → List ℕ → Bool
covers scopes file = is_empty scopes || any (λ s. path_in_scope file (normalize_scope s)) scopes

overlap_one :
    (x : List ℕ) (right : List (List ℕ)) (file : List ℕ)
    → path_in_scope file (normalize_scope x) ≡ true
    → any (λ s. path_in_scope file (normalize_scope s)) right ≡ true
    → any (λ b. paths_overlap (normalize_scope x) (normalize_scope b)) right ≡ true
overlap_one x (y ∷ right) file p q = ground (
  arith,
  overlap_one x right file p,
  common_file-overlap file (normalize_scope x) (normalize_scope y) p,
)
overlap_one x [] file p q = cc

overlap_some :
    (left right : List (List ℕ)) (file : List ℕ)
    → any (λ s. path_in_scope file (normalize_scope s)) left ≡ true
    → any (λ s. path_in_scope file (normalize_scope s)) right ≡ true
    → any (λ a. any (λ b. paths_overlap (normalize_scope a) (normalize_scope b)) right) left ≡ true
overlap_some [] right file p q = cc
overlap_some (x ∷ left) right file p q =
    ground (arith, overlap_one x right file, overlap_some left right file)

-- Where two write scopes have a file in common, `scopesOverlap` says so: scopes that it finds apart
-- never contain one file both.
pub overlap_complete :
    (left right : List (List ℕ)) (file : List ℕ)
    → covers left file ≡ true
    → covers right file ≡ true
    → scopes_overlap left right ≡ true
unfolding scopes_overlap
overlap_complete left right file p q = ground (arith, overlap_some left right file)
