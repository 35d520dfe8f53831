-- ===== src/Plan/Ownership.antt =====
-- src/domain/plan.ts: `requirementOwnershipErrors`.
use multi_agent_build_system.Prelude.{
  String, ◌≡◌, refl, sym, ◌∙◌, ◌↔◌, ◌⊎◌, inl, inr, Bool, true, false, ◌&&◌, not, Option, List, [],
  ◌∷◌, ◌++◌, map, arith, if◌then◌else◌, Bool-cases, Option-cases, is_some, or_default, &&_iff,
  is_empty, any, all, filter, when, All, is_empty-filter, is_empty-append, includes,
}
use multi_agent_build_system.Plan.Graph.Sets.{includes-append}
use multi_agent_build_system.Plan.Draft.{PlannedTask, ExecutionPlan}

pub record Requirement : Type 0 where
  pub id : String
  pub mandatory : Option Bool
  pub global : Option Bool

pub data OwnershipError : Type 0 where
  owns_unknown : String → List String → OwnershipError
  no_owner : List String → OwnershipError

abbrev pub owned_by : PlannedTask → List String
owned_by t = or_default t.requirements []

unknown_errors : List String → List PlannedTask → List OwnershipError
unknown_errors known [] = []
unknown_errors known (t ∷ ts) =
    let unknown = filter (λ id. not (includes known id)) (owned_by t) in
    when (not (is_empty unknown)) (owns_unknown t.key unknown) ++ unknown_errors known ts

-- `declaring.flatMap((task) => task.requirements ?? [])`
all_owned : List PlannedTask → List String
all_owned [] = []
all_owned (t ∷ ts) = owned_by t ++ all_owned ts

-- `requirement.mandatory !== false && requirement.global !== true`
abbrev pub needs_owner : Requirement → Bool
needs_owner r = or_default r.mandatory true && not (or_default r.global false)

unfoldable pub requirement_ownership_errors : ExecutionPlan → List Requirement → List OwnershipError
unfolding unknown_errors all_owned
requirement_ownership_errors plan requirements =
    let declaring = filter (λ t. is_some t.requirements) plan.tasks in
    let orphaned =
      filter (λ r. needs_owner r && not (includes (all_owned declaring) r.id)) requirements in
    if is_empty declaring
    then []
    else unknown_errors (map (λ r. r.id) requirements) declaring
      ++ when (not (is_empty orphaned)) (no_owner (map (λ r. r.id) orphaned))

-- Each requirement that a task of the plan owns is known.
abbrev pub OwnsKnown : List Requirement → PlannedTask → Type 0
OwnsKnown requirements t = all (includes (map (λ r. r.id) requirements)) (owned_by t) ≡ true

-- A requirement that needs an owner has one.
abbrev pub HasOwner : List PlannedTask → Requirement → Type 0
HasOwner tasks r = needs_owner r ≡ true → any (λ t. includes (owned_by t) r.id) tasks ≡ true

any-not : (p : String → Bool) (xs : List String) → any (λ x. not (p x)) xs ≡ not (all p xs)
any-not p [] = refl
any-not p (x ∷ xs) = ground (arith, any-not p xs)

-- A task that declares no requirement adds nothing, and one that does adds an error for an unknown one.
unknown_errors-cons :
    (known : List String) (t : PlannedTask) (ts : List PlannedTask)
    → is_empty (unknown_errors known (filter (λ x. is_some x.requirements) (t ∷ ts))) ≡ (
        all (includes known) (owned_by t)
        && is_empty (unknown_errors known (filter (λ x. is_some x.requirements) ts)))
unfolding unknown_errors
unknown_errors-cons known t ts = elim (Option-cases t.requirements) [
  | inl missing ↦ ground arith
  | inr (ids, declared) ↦
      let none_unknown = is_empty-filter (λ id. not (includes known id)) ids in
      let all_known = any-not (includes known) ids in
      let rest = unknown_errors known (filter (λ x. is_some x.requirements) ts) in
      ground (
        arith,
        is_empty-append
            (when (not (is_empty (filter (λ id. not (includes known id)) ids)))
              (owns_unknown t.key (filter (λ id. not (includes known id)) ids)))
            rest,
      )
]

unknown_errors_iff :
    (requirements : List Requirement) (tasks : List PlannedTask)
    → (is_empty (
          unknown_errors
            (map (λ r. r.id) requirements)
            (filter (λ t. is_some t.requirements) tasks))
        ≡ true)
      ↔ All (OwnsKnown requirements) tasks
unfolding unknown_errors
unknown_errors_iff requirements [] = (λ h. tt, λ h. refl)
unknown_errors_iff requirements (t ∷ ts) =
    let step = unknown_errors-cons (map (λ r. r.id) requirements) t ts in
    let ih = unknown_errors_iff requirements ts in
    (
      λ h. let both = (&&_iff _ _).0 (sym step ∙ h) in (both.0, ih.0 both.1),
      λ h. step ∙ (&&_iff _ _).1 (h.0, ih.1 h.1),
    )

owned_lem :
    (tasks : List PlannedTask) (id : String)
    → includes (all_owned (filter (λ t. is_some t.requirements) tasks)) id
      ≡ any (λ t. includes (owned_by t) id) tasks
unfolding all_owned
owned_lem [] id = refl
owned_lem (t ∷ ts) id = elim (Option-cases t.requirements) [
  | inl missing ↦ ground (arith, owned_lem ts id)
  | inr (ids, declared) ↦ ground (
    arith,
    owned_lem ts id,
    includes-append ids (all_owned (filter (λ x. is_some x.requirements) ts)) id,
  )
]

orphaned_iff :
    (owned : List String) (tasks : List PlannedTask)
    → ((id : String) → includes owned id ≡ any (λ t. includes (owned_by t) id) tasks)
    → (requirements : List Requirement)
    → (is_empty (filter (λ r. needs_owner r && not (includes owned r.id)) requirements) ≡ true)
      ↔ All (HasOwner tasks) requirements
orphaned_iff owned tasks same [] = (λ h. tt, λ h. refl)
orphaned_iff owned tasks same (r ∷ rs) =
    elim (Bool-cases (needs_owner r && not (includes owned r.id))) [
      | inl orphan ↦ (λ h. absurd (ground arith), λ h. absurd (ground (arith, same r.id, h.0)))
      | inr fine ↦
          let ih = orphaned_iff owned tasks same rs in
          (λ h. (λ due. ground (arith, same r.id), ih.0 (ground arith)), λ h. rw fine (ih.1 h.1))
    ]

declared_lem :
    (unknown : List OwnershipError) (orphaned : List Requirement)
    → is_empty (unknown ++ when (not (is_empty orphaned)) (no_owner (map (λ r. r.id) orphaned)))
      ≡ (is_empty unknown && is_empty orphaned)
declared_lem unknown orphaned = ground (
  arith,
  is_empty-append unknown (when (not (is_empty orphaned)) (no_owner (map (λ r. r.id) orphaned))),
)

-- The ownership of requirements is without error exactly when no task of the plan declares any, or each
-- requirement that a task owns is known and each mandatory requirement that is not global is owned by
-- some task.
pub requirement_ownership_errors_iff :
    (plan : ExecutionPlan) (requirements : List Requirement)
    → (is_empty (requirement_ownership_errors plan requirements) ≡ true) ↔ (
        (any (λ t. is_some t.requirements) plan.tasks ≡ false)
        ⊎ (All (OwnsKnown requirements) plan.tasks × All (HasOwner plan.tasks) requirements))
unfolding requirement_ownership_errors
requirement_ownership_errors_iff plan requirements =
    let tasks = plan.tasks in
    let owned = all_owned (filter (λ t. is_some t.requirements) tasks) in
    let found = is_empty-filter (λ t. is_some t.requirements) tasks in
    let unknown =
      unknown_errors (map (λ r. r.id) requirements) (filter (λ t. is_some t.requirements) tasks) in
    let orphaned = filter (λ r. needs_owner r && not (includes owned r.id)) requirements in
    let known = unknown_errors_iff requirements tasks in
    let due = orphaned_iff owned tasks (owned_lem tasks) requirements in
    elim (Bool-cases (any (λ t. is_some t.requirements) tasks)) [
      | inr none_declares ↦ (λ h. inl none_declares, λ h. ground arith)
      | inl declares ↦ (
        λ h.
            let both : (is_empty unknown ≡ true) × (is_empty orphaned ≡ true) = (
              ground (arith, declared_lem unknown orphaned),
              ground (arith, declared_lem unknown orphaned),
            ) in
            inr (known.0 both.0, due.0 both.1),
        λ h. elim h [
          | inl none_declares ↦ absurd (ground arith)
          | inr (a, b) ↦ ground (arith, declared_lem unknown orphaned, known.1 a, due.1 b)
        ],
      )
    ]
