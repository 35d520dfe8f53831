-- ===== src/Plan/Graph/Paths.antt =====
-- src/domain/plan.ts: what the search of `hasDependencyPath` has found when it ends.
use multi_agent_build_system.Prelude.{
  String, ◌≡◌, refl, subst, ◌≢◌, ◌⊎◌, inl, inr, Bool, true, false, Option, some, List, [], ◌∷◌,
  arith, str_eq, str_eq_iff, Bool-cases, All, includes,
}
use multi_agent_build_system.Plan.Graph.{any_path}
use multi_agent_build_system.Plan.Graph.Sets.{All-includes}

module _ (deps : String → List String) where
  -- A task depends on itself, on its dependencies, and on what those depend on.
  pub data DependsOn : String → String → Type 0 where
    itself : {a : String} → DependsOn a a
    via : {a b c : String} → includes (deps a) b ≡ true → DependsOn b c → DependsOn a c

  -- The set has the dependencies of a key.
  abbrev pub HasDeps : List String → String → Type 0
  HasDeps seen d = (e : String) → includes (deps d) e ≡ true → includes seen e ≡ true

module _ (deps : String → List String) (to : String) where
  -- What a search that ends has found, and what it leaves in `seen`.
  pub record Searched (ks seen : List String) (found : Bool) (seen' : List String) : Type 0 where
    pub keeps : (d : String) → includes seen d ≡ true → includes seen' d ≡ true
    pub target : found ≡ true → (k : String) × (includes ks k ≡ true) × DependsOn deps k to
    pub reached : found ≡ false → All (λ k. includes seen' k ≡ true) ks
    pub missed : found ≡ false → includes seen to ≡ false → includes seen' to ≡ false
    pub closed :
        found ≡ false
        → (d : String) → includes seen' d ≡ true
        → (includes seen d ≡ true) ⊎ HasDeps deps seen' d

  pub Searched-nil : (seen : List String) → Searched [] seen false seen
  Searched-nil seen = record {
    keeps = λ d m. m;
    target = λ e. cc;
    reached = λ e. tt;
    missed = λ e m. m;
    closed = λ e d m. inl m;
  }

  Searched-found :
      (k : String) (ks : List String) {seen s : List String}
      → Searched (k ∷ []) seen true s
      → Searched (k ∷ ks) seen true s
  Searched-found k ks a = record {
    keeps = a.keeps;
    target = λ e. let (d, m, path) = a.target refl in (d, ground arith, path);
    reached = λ e. cc;
    missed = λ e. cc;
    closed = λ e. cc;
  }

  Searched-next :
      (k : String) (ks : List String) {seen s s' : List String} {found : Bool}
      → Searched (k ∷ []) seen false s
      → Searched ks s found s'
      → Searched (k ∷ ks) seen found s'
  Searched-next k ks a b = record {
    keeps = λ d m. b.keeps d (a.keeps d m);
    target = λ e. let (d, m, path) = b.target e in (d, ground arith, path);
    reached = λ e. (b.keeps k (a.reached refl).0, b.reached e);
    missed = λ e m. b.missed e (a.missed refl m);
    closed = λ e d m. elim (b.closed e d m) [
      | inl older ↦ elim (a.closed refl d older) [
        | inl old ↦ inl old
        | inr h ↦ inr (λ x mx. b.keeps x (h x mx))
      ]
      | inr h ↦ inr h
    ];
  }

  -- The search ends with what it has found.
  abbrev pub Ends : List String → List String → Option (Bool × List String) → Type 0
  Ends ks seen result =
      (found : Bool) × (seen' : List String) × (result ≡ some (found, seen'))
      × Searched ks seen found seen'

  pub any_path-Ends :
      (go : String → List String → Option (Bool × List String)) (stack : List String)
      → ((k : String) (seen : List String)
          → ((d : String) → includes stack d ≡ true → includes seen d ≡ true)
          → Ends (k ∷ []) seen (go k seen))
      → (ks seen : List String) → ((d : String) → includes stack d ≡ true → includes seen d ≡ true)
      → Ends ks seen (any_path go ks seen)
  unfolding any_path
  any_path-Ends go stack ends [] seen grows = (false, seen, refl, Searched-nil seen)
  any_path-Ends go stack ends (k ∷ ks) seen grows =
      let (found, s, at, a) = ends k seen grows in
      elim (Bool-cases found) [
        | inl hit ↦ (
          true,
          s,
          ground arith,
          Searched-found k ks (subst (λ b. Searched (k ∷ []) seen b s) hit a),
        )
        | inr miss ↦
            let (found', s', rest, b) =
              any_path-Ends go stack ends ks s (λ d m. a.keeps d (grows d m)) in
            (
              found',
              s',
              ground (arith, rest),
              Searched-next k ks (subst (λ b. Searched (k ∷ []) seen b s) miss a) b,
            )
      ]

  pub Searched-target :
      (key : String) (seen : List String) → key ≡ to → Searched (key ∷ []) seen true seen
  Searched-target key seen e = record {
    keeps = λ d m. m;
    target =
        λ h. (key, ground (arith, str_eq_iff key key), subst (λ t. DependsOn deps key t) e itself);
    reached = λ h. cc;
    missed = λ h. cc;
    closed = λ h. cc;
  }

  pub Searched-seen :
      (key : String) (seen : List String)
      → includes seen key ≡ true
      → Searched (key ∷ []) seen false seen
  Searched-seen key seen h = record {
    keeps = λ d m. m;
    target = λ e. cc;
    reached = λ e. (h, tt);
    missed = λ e m. m;
    closed = λ e d m. inl m;
  }

  pub Searched-below :
      (key : String) {seen s : List String} {found : Bool}
      → key ≢ to
      → Searched (deps key) (key ∷ seen) found s
      → Searched (key ∷ []) seen found s
  Searched-below key {seen} {s} differs b = record {
    keeps = λ d m. b.keeps d (ground (arith, m));
    target =
        λ e. let (d, m, path) = b.target e in (key, ground (arith, str_eq_iff key key), via m path);
    reached = λ e. (b.keeps key (ground (arith, str_eq_iff key key)), tt);
    missed = λ e m. b.missed e (ground (arith, str_eq_iff key to, m));
    closed = λ e d m. elim (b.closed e d m) [
      | inl older ↦ elim (Bool-cases (str_eq key d)) [
        | inl same ↦ inr (
            subst (λ x. HasDeps deps s x) ((str_eq_iff key d).0 same)
              (λ x mx. All-includes (deps key) s (b.reached e) x mx))
        | inr other_key ↦ inl (ground (arith, older))
      ]
      | inr h ↦ inr h
    ];
  }
