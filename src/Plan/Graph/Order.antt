-- ===== src/Plan/Graph/Order.antt =====
-- src/domain/plan.ts: what `visit` and `topologicalOrder` guarantee.
use multi_agent_build_system.Prelude.{
  ℕ, zero, suc, String, ◌≡◌, refl, sym, ap, ◌∙◌, subst, ◌≢◌, inl, inr, true, false, Option, some,
  List, [], ◌∷◌, ◌++◌, arith, str_eq_iff, Bool-cases, Option-cases, length, All, includes,
}
use multi_agent_build_system.Plan.Graph.{
  remove, Walk, enter, leave, report, visit_all, unvisited, known_deps, visit, walk,
}
use multi_agent_build_system.Plan.Graph.Sets.{includes-remove, remove-cons, filter-All}

-- The keys of a list, last first, before those that were seen.
abbrev pub onto : List String → List String → List String
onto [] seen = seen
onto (k ∷ ks) seen = onto ks (k ∷ seen)

module _ (keys : List String) (deps : String → List String) where
  -- Each key of the list is a key of the plan, stands in it once, and comes after the keys it depends on.
  abbrev pub IsOrdered : List String → List String → Type 0
  IsOrdered seen [] = Unit
  IsOrdered seen (k ∷ rest) =
      (includes keys k ≡ true)
      × (includes seen k ≡ false)
      × All (λ d. includes seen d ≡ true) (known_deps keys deps k)
      × IsOrdered (k ∷ seen) rest

  IsOrdered-snoc :
      (seen ks : List String) (key : String)
      → IsOrdered seen ks
      → includes keys key ≡ true
      → includes (onto ks seen) key ≡ false
      → All (λ d. includes (onto ks seen) d ≡ true) (known_deps keys deps key)
      → IsOrdered seen (ks ++ key ∷ [])
  IsOrdered-snoc seen [] key o known absent h = (known, absent, h, tt)
  IsOrdered-snoc seen (k ∷ ks) key (a, b, c, o) known absent h =
      (a, b, c, IsOrdered-snoc (k ∷ seen) ks key o known absent h)

  onto-snoc :
      (seen ks : List String) (key : String) → onto (ks ++ key ∷ []) seen ≡ key ∷ onto ks seen
  onto-snoc seen [] key = refl
  onto-snoc seen (k ∷ ks) key = onto-snoc (k ∷ seen) ks key

  pub record IsSorted (w : Walk) : Type 0 where
    pub same : w.visited ≡ onto w.order []
    pub ordered : IsOrdered [] w.order
    pub apart : (d : String) → includes w.visiting d ≡ true → includes w.visited d ≡ false

  -- A visit leaves the stack as it was and only adds to what is visited; unless it meets a cycle, it
  -- visits its keys and keeps the order.
  pub record Visits (ks : List String) (w w' : Walk) : Type 0 where
    pub stacked : w'.visiting ≡ w.visiting
    pub keeps : (d : String) → includes w.visited d ≡ true → includes w'.visited d ≡ true
    pub clean : w'.cycles ≡ [] → w.cycles ≡ []
    pub reaches : w'.cycles ≡ [] → All (λ k. includes w'.visited k ≡ true) ks
    pub sorts : w'.cycles ≡ [] → IsSorted w → IsSorted w'

  enter-IsSorted :
      (key : String) (w : Walk)
      → includes w.visited key ≡ false
      → IsSorted w
      → IsSorted (enter key w)
  enter-IsSorted key w fresh s = record {
    same = s.same;
    ordered = s.ordered;
    apart = λ d h. ground (arith, str_eq_iff key d, s.apart d);
  }

  leave-IsSorted :
      (key : String) (w : Walk)
      → includes keys key ≡ true
      → includes w.visiting key ≡ true
      → All (λ d. includes w.visited d ≡ true) (known_deps keys deps key)
      → IsSorted w
      → IsSorted (leave key w)
  leave-IsSorted key w known inside h s =
      let absent = s.apart key inside in
      record {
        same = ap (λ v. key ∷ v) s.same ∙ sym (onto-snoc [] w.order key);
        ordered =
            IsOrdered-snoc [] w.order key s.ordered known
              (subst (λ v. includes v key ≡ false) s.same absent)
              (subst (λ v. All (λ d. includes v d ≡ true) (known_deps keys deps key)) s.same h);
        apart = λ d m.
            let (differs, in_stack) = includes-remove key d w.visiting m in
            ground (arith, str_eq_iff key d, s.apart d in_stack);
      }

  settled : (key : String) (w : Walk) → includes w.visited key ≡ true → Visits (key ∷ []) w w
  settled key w h = record {
    stacked = refl;
    keeps = λ d m. m;
    clean = λ e. e;
    reaches = λ e. (h, tt);
    sorts = λ e s. s;
  }

  snoc-ne-nil : (cs : List (List String)) (c : List String) → cs ++ c ∷ [] ≢ []
  snoc-ne-nil [] c e = cc
  snoc-ne-nil (x ∷ cs) c e = cc

  reported : (key : String) (cycle : List String) (w : Walk) → Visits (key ∷ []) w (report cycle w)
  reported key cycle w =
      let never = snoc-ne-nil w.cycles cycle in
      record {
        stacked = refl;
        keeps = λ d m. m;
        clean = λ e. absurd (never e);
        reaches = λ e. absurd (never e);
        sorts = λ e. absurd (never e);
      }

  Visits-trans :
      (k : String) (ks : List String) {w u w' : Walk}
      → Visits (k ∷ []) w u
      → Visits ks u w'
      → Visits (k ∷ ks) w w'
  Visits-trans k ks a b = record {
    stacked = b.stacked ∙ a.stacked;
    keeps = λ d m. b.keeps d (a.keeps d m);
    clean = λ e. a.clean (b.clean e);
    reaches = λ e. (b.keeps k (a.reaches (b.clean e)).0, b.reaches e);
    sorts = λ e s. b.sorts e (a.sorts (b.clean e) s);
  }

  pub visit_all-Visits :
      (go : String → Walk → Option Walk)
      → ((k : String) (w w' : Walk)
          → includes keys k ≡ true
          → go k w ≡ some w'
          → Visits (k ∷ []) w w')
      → (ks : List String) (w w' : Walk) → All (λ k. includes keys k ≡ true) ks
      → visit_all go ks w ≡ some w'
      → Visits ks w w'
  unfolding visit_all
  visit_all-Visits go step [] w w' known h =
      subst (λ v. Visits [] w v) (ground arith)
        (record {
          stacked = refl;
          keeps = λ d m. m;
          clean = λ e. e;
          reaches = λ e. tt;
          sorts = λ e s. s;
        })
  visit_all-Visits go step (k ∷ ks) w w' (known, others) h = elim (Option-cases (go k w)) [
    | inl failed ↦ absurd (ground arith)
    | inr (u, went) ↦
        Visits-trans k ks (step k w u known went)
          (visit_all-Visits go step ks u w' others (ground arith))
  ]

  pub known_deps_lem : (key : String) → All (λ k. includes keys k ≡ true) (known_deps keys deps key)
  known_deps_lem key = filter-All (includes keys) (deps key)

  left :
      (key : String) (w v : Walk)
      → includes keys key ≡ true
      → includes w.visited key ≡ false
      → includes w.visiting key ≡ false
      → Visits (known_deps keys deps key) (enter key w) v
      → Visits (key ∷ []) w (leave key v)
  left key w v known fresh outside b = record {
    stacked = ap (remove key) b.stacked ∙ remove-cons key w.visiting outside;
    keeps = λ d m. ground (arith, b.keeps d);
    clean = b.clean;
    reaches = λ e. (ground (arith, str_eq_iff key key), tt);
    sorts = λ e s.
        leave-IsSorted key v known
          (subst (λ x. includes x key ≡ true) (sym b.stacked) (ground (arith, str_eq_iff key key)))
          (b.reaches e) (b.sorts e (enter-IsSorted key w fresh s));
  }

  pub visit-Visits :
      (n : ℕ) (path : List String) (key : String) (w w' : Walk)
      → includes keys key ≡ true
      → visit keys deps n path key w ≡ some w'
      → Visits (key ∷ []) w w'
  unfolding visit
  visit-Visits zero path key w w' known h = cc
  visit-Visits (suc n) path key w w' known h = elim (Bool-cases (includes w.visited key)) [
    | inl old ↦ subst (λ v. Visits (key ∷ []) w v) (ground arith) (settled key w old)
    | inr fresh ↦ elim (Bool-cases (includes w.visiting key)) [
      | inl inside ↦
          subst (λ v. Visits (key ∷ []) w v) (ground arith) (reported key (path ++ key ∷ []) w)
      | inr outside ↦
          elim (Option-cases (
            visit_all (visit keys deps n (path ++ key ∷ [])) (known_deps keys deps key)
              (enter key w))) [
                | inl failed ↦ absurd (ground arith)
                | inr (v, below) ↦
                    subst (λ x. Visits (key ∷ []) w x) (ground arith)
                      (left key w v known fresh outside (
                        visit_all-Visits (visit keys deps n (path ++ key ∷ []))
                          (λ k u u'. visit-Visits n (path ++ key ∷ []) k u u')
                          (known_deps keys deps key) (enter key w) v (known_deps_lem key) below))
              ]
    ]
  ]

  pub walk-Visits :
      (w : Walk)
      → walk keys deps ≡ some w
      → All (λ k. includes keys k ≡ true) keys
      → Visits keys unvisited w
  unfolding walk
  walk-Visits w h known =
      visit_all-Visits (visit keys deps (suc (length keys)) [])
        (λ k u u'. visit-Visits (suc (length keys)) [] k u u') keys unvisited w known h
