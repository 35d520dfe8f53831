-- ===== src/Store/Table.antt =====
-- Tables with a text as primary key: `SELECT … WHERE id = ?` and `UPDATE … WHERE id = ?`.
pub mod Tracked
use multi_agent_build_system.Prelude.{
  String, ◌≡◌, subst, ◌≢◌, inl, inr, Bool, false, Option, none, some, List, [], ◌∷◌, ◌++◌, arith,
  str_eq, str_eq_iff, if◌then◌else◌, Bool-cases, any, All,
}

module _ {R : Type 0} (key : R → String) where
  unfoldable pub lookup : String → List R → Option R
  lookup k [] = none
  lookup k (r ∷ rows) = if str_eq (key r) k then some r else lookup k rows

  -- A primary key names one row at most, so the first one is the one.
  unfoldable pub update : String → (R → R) → List R → List R
  update k f [] = []
  update k f (r ∷ rows) = if str_eq (key r) k then f r ∷ rows else r ∷ update k f rows

  pub lookup-key : (k : String) (rows : List R) {r : R} → lookup k rows ≡ some r → key r ≡ k
  unfolding lookup
  lookup-key k [] h = cc
  lookup-key k (s ∷ rows) {r} h = elim (Bool-cases (str_eq (key s) k)) [
    | inl same ↦ subst (λ x. key x ≡ k) (ground arith) ((str_eq_iff (key s) k).0 same)
    | inr other ↦ lookup-key k rows (ground arith)
  ]

  -- A write that keeps the key changes what is found under that key, and nothing else.
  pub lookup-update :
      (k j : String) (f : R → R) (rows : List R)
      → ((r : R) → key (f r) ≡ key r)
      → lookup j (update k f rows) ≡ (
          if str_eq k j
          then elim (lookup j rows) [ none ↦ none | some r ↦ some (f r) ]
          else lookup j rows)
  unfolding lookup update
  lookup-update k j f [] keeps = ground arith
  lookup-update k j f (r ∷ rows) keeps = ground (
    arith,
    str_eq_iff (key r) k,
    str_eq_iff (key r) j,
    str_eq_iff k j,
    str_eq_iff (key (f r)) j,
    keeps r,
    lookup-update k j f rows keeps,
  )

  pub lookup-update_self :
      (k : String) (f : R → R) (rows : List R) {r : R}
      → ((s : R) → key (f s) ≡ key s)
      → lookup k rows ≡ some r
      → lookup k (update k f rows) ≡ some (f r)
  lookup-update_self k f rows keeps h =
      ground (arith, lookup-update k k f rows keeps, str_eq_iff k k)

  pub lookup-update_ne :
      (k j : String) (f : R → R) (rows : List R)
      → ((s : R) → key (f s) ≡ key s)
      → k ≢ j
      → lookup j (update k f rows) ≡ lookup j rows
  lookup-update_ne k j f rows keeps h =
      ground (arith, lookup-update k j f rows keeps, str_eq_iff k j)

  pub any-lookup :
      (p : R → Bool) (k : String) (rows : List R) {r : R}
      → any p rows ≡ false
      → lookup k rows ≡ some r
      → p r ≡ false
  unfolding lookup
  any-lookup p k [] h at = cc
  any-lookup p k (s ∷ rows) h at = elim (Bool-cases (str_eq (key s) k)) [
    | inl same ↦ ground arith
    | inr other ↦ any-lookup p k rows (ground arith) (ground arith)
  ]

  pub All-lookup :
      (P : R → Type 0) (k : String) (rows : List R) {r : R}
      → All P rows
      → lookup k rows ≡ some r
      → P r
  unfolding lookup
  All-lookup P k [] h e = cc
  All-lookup P k (s ∷ rows) (p, h) e = elim (Bool-cases (str_eq (key s) k)) [
    | inl same ↦ subst P (ground arith) p
    | inr other ↦ All-lookup P k rows h (ground arith)
  ]

  pub All-update :
      (P : R → Type 0) (k : String) (f : R → R) (rows : List R)
      → All P rows
      → ((r : R) → lookup k rows ≡ some r → P r → P (f r))
      → All P (update k f rows)
  unfolding lookup update
  All-update P k f [] h step = tt
  All-update P k f (s ∷ rows) (p, h) step = elim (Bool-cases (str_eq (key s) k)) [
    | inl same ↦ rw same (step s (rw same) p, h)
    | inr other ↦ rw other (p, All-update P k f rows h (λ r e. step r (rw other e)))
  ]

-- `INSERT INTO …`, into a table whose rows are listed in the order of insertion
abbrev pub insert {ℓ} : {A : Type ℓ} → A → List A → List A
insert r rows = rows ++ r ∷ []

pub All-insert {ℓ κ} :
    {A : Type ℓ} (P : A → Type κ) (rows : List A) {r : A} → All P rows → P r → All P (insert r rows)
All-insert P [] h p = (p, tt)
All-insert P (s ∷ rows) (q, h) p = (q, All-insert P rows h p)
