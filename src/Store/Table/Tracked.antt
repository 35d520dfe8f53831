-- ===== src/Store/Table/Tracked.antt =====
-- Rows followed through writes: every row of a table is still there afterwards, and its new content is
-- related to the old one.
use multi_agent_build_system.Prelude.{
  String, ◌≡◌, ◌∙◌, subst, ◌≢◌, ◌⊎◌, inl, inr, none, some, List, [], ◌∷◌, arith, str_eq, str_eq_iff,
  Bool-cases, Option-cases,
}
use multi_agent_build_system.Store.Table.{lookup, update, lookup-update, lookup-update_self, insert}

module _ {A : Type 0} (key : A → String) (R : A → A → Type 0) where
  abbrev pub Tracked : List A → List A → Type 0
  Tracked rows rows' =
      (j : String) (r : A)
      → lookup key j rows ≡ some r
      → (r' : A) × (lookup key j rows' ≡ some r') × R r r'

  pub Tracked-same : ((r : A) → R r r) → (rows : List A) → Tracked rows rows
  Tracked-same same rows j r h = (r, h, same r)

  pub Tracked-join :
      ((r s t : A) → R r s → R s t → R r t)
      → (rows rows' rows'' : List A) → Tracked rows rows'
      → Tracked rows' rows''
      → Tracked rows rows''
  Tracked-join join rows rows' rows'' f g j r h =
      let (s, at, first) = f j r h in
      let (t, at', second) = g j s at in (t, at', join r s t first second)

  pub Tracked-update :
      ((r : A) → R r r)
      → (k : String) (f : A → A) (rows : List A) → ((r : A) → key (f r) ≡ key r)
      → ((r : A) → lookup key k rows ≡ some r → R r (f r))
      → Tracked rows (update key k f rows)
  Tracked-update same k f rows keeps step j r h = elim (Bool-cases (str_eq k j)) [
    | inl at ↦
        let e : k ≡ j = (str_eq_iff k j).0 at in
        let found : lookup key k rows ≡ some r = rw e h in
        (
          f r,
          subst (λ i. lookup key i (update key k f rows) ≡ some (f r)) e
              (lookup-update_self key k f rows keeps found),
          step r found,
        )
    | inr other ↦ (r, lookup-update key k j f rows keeps ∙ rw other h, same r)
  ]

  pub Tracked-cons :
      (a b : A) (rows rows' : List A)
      → key b ≡ key a
      → R a b
      → Tracked rows rows'
      → Tracked (a ∷ rows) (b ∷ rows')
  unfolding lookup
  Tracked-cons a b rows rows' named step rest j r found = elim (Bool-cases (str_eq (key a) j)) [
    | inl same ↦
        let head : a ≡ r = ground arith in
        (b, ground (arith, named, same), subst (λ x. R x b) head step)
    | inr other ↦
        let (r', at, related) = rest j r (ground arith) in
        (r', ground (arith, named, other, at), related)
  ]

  lookup-insert :
      (rows : List A) (s : A) (j : String) {r : A}
      → lookup key j rows ≡ some r
      → lookup key j (insert s rows) ≡ some r
  unfolding lookup
  lookup-insert [] s j h = cc
  lookup-insert (x ∷ rows) s j h = elim (Bool-cases (str_eq (key x) j)) [
    | inl same ↦ ground arith
    | inr other ↦ rw other (lookup-insert rows s j (ground arith))
  ]

  pub Tracked-insert : ((r : A) → R r r) → (s : A) (rows : List A) → Tracked rows (insert s rows)
  Tracked-insert same s rows j r h = (r, lookup-insert rows s j h, same r)

module _ {A : Type 0} (key : A → String) where
  -- A row found after an insertion was there before, or is the row put in.
  pub insert-lookup :
      (rows : List A) (s : A) (j : String) {r : A}
      → lookup key j (insert s rows) ≡ some r
      → (lookup key j rows ≡ some r) ⊎ ((lookup key j rows ≡ none) × (key s ≡ j) × (s ≡ r))
  unfolding lookup
  insert-lookup [] s j h = ground (arith, str_eq_iff (key s) j)
  insert-lookup (x ∷ rows) s j h = elim (Bool-cases (str_eq (key x) j)) [
    | inl same ↦ ground arith
    | inr other ↦ rw other (insert-lookup rows s j (ground arith))
  ]

  -- A row found after a write is the row that was there, written if it stands under the key.
  pub update-lookup :
      (k : String) (f : A → A) (rows : List A) (j : String) {r : A}
      → ((s : A) → key (f s) ≡ key s)
      → lookup key j (update key k f rows) ≡ some r
      → (s : A) × (lookup key j rows ≡ some s) × (((k ≡ j) × (f s ≡ r)) ⊎ ((k ≢ j) × (s ≡ r)))
  update-lookup k f rows j keeps h = elim (Option-cases (lookup key j rows)) [
    | inl missing ↦ absurd (ground (arith, lookup-update key k j f rows keeps))
    | inr (s, found) ↦
        (s, found, ground (arith, lookup-update key k j f rows keeps, str_eq_iff k j))
  ]

  -- A row put in under a key that no row has is found under it.
  pub lookup-insert_self :
      (rows : List A) (s : A) (j : String)
      → key s ≡ j
      → lookup key j rows ≡ none
      → lookup key j (insert s rows) ≡ some s
  unfolding lookup
  lookup-insert_self [] s j named h = ground (arith, str_eq_iff (key s) j)
  lookup-insert_self (x ∷ rows) s j named h = elim (Bool-cases (str_eq (key x) j)) [
    | inl same ↦ absurd (ground arith)
    | inr other ↦ rw other (lookup-insert_self rows s j named (ground arith))
  ]
