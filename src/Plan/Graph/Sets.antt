-- ===== src/Plan/Graph/Sets.antt =====
-- src/domain/plan.ts: the sets of keys that the searches keep, as lists, and how many keys a set leaves out.
use multi_agent_build_system.Prelude.{
  ℕ, ◌≤◌, ◌<◌, String, ◌≡◌, refl, subst, ◌≢◌, inl, inr, Bool, true, false, ◌||◌, not, List, [], ◌∷◌,
  ◌++◌, arith, str_eq, str_eq_iff, Bool-cases, length, filter, All, All-map, includes,
}
use multi_agent_build_system.Plan.Graph.{remove}

pub includes-append :
    (xs ys : List String) (a : String) → includes (xs ++ ys) a ≡ (includes xs a || includes ys a)
includes-append [] ys a = refl
includes-append (x ∷ xs) ys a = ground (arith, includes-append xs ys a)

pub includes-remove :
    (key d : String) (ks : List String)
    → includes (remove key ks) d ≡ true
    → (d ≢ key) × (includes ks d ≡ true)
unfolding remove
includes-remove key d [] h = (cc, cc)
includes-remove key d (k ∷ ks) h =
    ground (arith, str_eq_iff k key, str_eq_iff k d, includes-remove key d ks)

pub remove_absent : (key : String) (ks : List String) → includes ks key ≡ false → remove key ks ≡ ks
unfolding remove
remove_absent key [] h = refl
remove_absent key (k ∷ ks) h = ground (arith, str_eq_iff k key, remove_absent key ks)

pub remove-cons :
    (key : String) (ks : List String) → includes ks key ≡ false → remove key (key ∷ ks) ≡ ks
unfolding remove
remove-cons key ks h = ground (arith, str_eq_iff key key, remove_absent key ks)

-- The number of the keys that the set leaves out.
abbrev pub left_out : List String → List String → ℕ
left_out keys seen = length (filter (λ k. not (includes seen k)) keys)

pub left_out_le : (keys seen : List String) → left_out keys seen ≤ length keys
left_out_le [] seen = omega arith
left_out_le (k ∷ keys) seen = ground (arith, left_out_le keys seen)

pub left_out_grow :
    (keys seen more : List String)
    → ((d : String) → includes seen d ≡ true → includes more d ≡ true)
    → left_out keys more ≤ left_out keys seen
left_out_grow [] seen more h = omega arith
left_out_grow (k ∷ keys) seen more h = ground (arith, h k, left_out_grow keys seen more h)

pub left_out_cons :
    (keys seen : List String) (key : String) → left_out keys (key ∷ seen) ≤ left_out keys seen
left_out_cons keys seen key = left_out_grow keys seen (key ∷ seen) (λ d h. ground arith)

pub left_out_less :
    (keys seen : List String) (key : String)
    → includes keys key ≡ true
    → includes seen key ≡ false
    → left_out keys (key ∷ seen) < left_out keys seen
left_out_less [] seen key h absent = cc
left_out_less (k ∷ keys) seen key h absent = ground (
  arith,
  str_eq_iff k key,
  str_eq_iff key k,
  left_out_cons keys seen key,
  left_out_less keys seen key,
)

pub filter-All {ℓ} : {A : Type ℓ} (p : A → Bool) (xs : List A) → All (λ x. p x ≡ true) (filter p xs)
filter-All p [] = tt
filter-All p (x ∷ xs) = elim (Bool-cases (p x)) [
  | inl h ↦ rw h (h, filter-All p xs)
  | inr h ↦ rw h (filter-All p xs)
]

pub filter-both :
    (p : String → Bool) (xs : List String)
    → All (λ x. (p x ≡ true) × (includes xs x ≡ true)) (filter p xs)
filter-both p [] = tt
filter-both p (x ∷ xs) =
    let rest =
      All-map {P = λ y. (p y ≡ true) × (includes xs y ≡ true)}
        {Q = λ y. (p y ≡ true) × (includes (x ∷ xs) y ≡ true)} (λ y h. (h.0, ground (arith, h.1)))
        (filter p xs) (filter-both p xs) in
    elim (Bool-cases (p x)) [
      | inl h ↦ rw h ((h, ground (arith, str_eq_iff x x)), rest)
      | inr h ↦ rw h rest
    ]

includes_within :
    (ks all_keys : List String)
    → ((d : String) → includes ks d ≡ true → includes all_keys d ≡ true)
    → All (λ k. includes all_keys k ≡ true) ks
includes_within [] all_keys h = tt
includes_within (k ∷ ks) all_keys h = (
  h k (ground (arith, str_eq_iff k k)),
  includes_within ks all_keys (λ d m. h d (ground (arith, m))),
)

pub includes_self : (keys : List String) → All (λ k. includes keys k ≡ true) keys
includes_self keys = includes_within keys keys (λ d m. m)

pub All-includes :
    (ks seen : List String)
    → All (λ k. includes seen k ≡ true) ks
    → (d : String) → includes ks d ≡ true
    → includes seen d ≡ true
All-includes [] seen h d m = cc
All-includes (k ∷ ks) seen (here, others) d m = elim (Bool-cases (str_eq k d)) [
  | inl same ↦ subst (λ x. includes seen x ≡ true) ((str_eq_iff k d).0 same) here
  | inr differs ↦ All-includes ks seen others d (ground arith)
]
