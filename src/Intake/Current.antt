-- ===== src/Intake/Current.antt =====
-- src/intake/store.ts and service.ts: what every active acceptance is bound to, whatever calls are made.
use multi_agent_build_system.Prelude.{
  ℕ, String, ◌≡◌, refl, sym, subst, inl, inr, true, false, Option, none, some, List, [], ◌∷◌, map,
  arith, str_eq_iff, Bool-cases, any, All, unique, Outcome, ok, throw, ◌>>=◌,
}
use multi_agent_build_system.Store.Table.{lookup, update, lookup-update, insert}
use multi_agent_build_system.Store.{Db}
use multi_agent_build_system.Intake.Update.{
  cancel_tasks, submitted_ids, bump, reopened_states, reopen_brief, cleared, close_submitted,
}
use multi_agent_build_system.Intake.Briefs.{
  BriefState, clarifying, brief_state_eq, ProductBrief, AcceptanceBinding, Desk, IntakeError,
  unknown_brief, brief_key, get_brief, found_or, in_state, move_brief, set_brief_state,
  is_active_for, invalidated_if,
}

abbrev pub version_of : String → List ProductBrief → Option ℕ
version_of id bs = elim (lookup brief_key id bs) [ none ↦ none | some b ↦ some b.version ]

-- An active acceptance names the version its brief has now.
abbrev pub Current : List ProductBrief → AcceptanceBinding → Type 0
Current bs a = a.is_active ≡ true → version_of a.brief_id bs ≡ some a.brief_version

-- A brief has one active acceptance at most.
unfoldable pub Sole : List AcceptanceBinding → Type 0
Sole [] = Unit
Sole (a ∷ rest) = (a.is_active ≡ true → any (is_active_for a.brief_id) rest ≡ false) × Sole rest

unfoldable pub IsSettled : Desk → Type 0
unfolding Sole
IsSettled d = All (Current d.briefs) d.acceptances × Sole d.acceptances

-- A step that keeps the acceptances, and the version of every brief.
abbrev pub Spares : Desk → Desk → Type 0
Spares d d' =
    (d'.acceptances ≡ d.acceptances)
    × ((j : String) → version_of j d'.briefs ≡ version_of j d.briefs)

All-imp {ℓ} :
    {A : Type ℓ} (P Q : A → Type 0) (xs : List A) → ((x : A) → P x → Q x) → All P xs → All Q xs
All-imp P Q [] f h = tt
All-imp P Q (x ∷ xs) f (p, h) = (f x p, All-imp P Q xs f h)

pub Spares-IsSettled : (d d' : Desk) → Spares d d' → IsSettled d → IsSettled d'
unfolding IsSettled
Spares-IsSettled d d' (same, versions) (h, s) = (
  subst (λ as'. All (Current d'.briefs) as') (sym same)
      (All-imp (Current d.briefs) (Current d'.briefs) d.acceptances
        (λ a f e. ground (arith, f e, versions a.brief_id)) h),
  subst Sole (sym same) s,
)

version_of-in_state :
    (k j : String) (to : BriefState) (bs : List ProductBrief)
    → version_of j (update brief_key k (in_state to) bs) ≡ version_of j bs
version_of-in_state k j to bs =
    ground (arith, lookup-update brief_key k j (in_state to) bs (λ r. refl))

move_brief-Spares :
    (to : BriefState) (b : ProductBrief) (d : Desk) {d' : Desk}
    → move_brief to b d ≡ ok d'
    → Spares d d'
unfolding move_brief
move_brief-Spares to b d {d'} h =
    (ground arith, λ j. ground (arith, version_of-in_state b.id j to d.briefs))

pub set_brief_state-Spares :
    (id : String) (to : BriefState) (d : Desk) {d' : Desk}
    → set_brief_state id to d ≡ ok d'
    → Spares d d'
unfolding set_brief_state
set_brief_state-Spares id to d {d'} h = go (get_brief id d) h
  where
    go :
        (o : Option ProductBrief)
        → (found_or o (unknown_brief id) >>= λ b. move_brief to b d) ≡ ok d'
        → Spares d d'
    go none e = cc
    go (some b) e = move_brief-Spares to b d e

reopen_brief-Spares :
    (b : ProductBrief) (d : Desk) {d' : Desk} → reopen_brief b d ≡ ok d' → Spares d d'
unfolding reopen_brief
reopen_brief-Spares b d {d'} h = elim (Bool-cases (any (brief_state_eq b.state) reopened_states)) [
  | inl e ↦ set_brief_state-Spares b.id clarifying d {d' = d'} (ground arith)
  | inr e ↦ (ground arith, λ j. ground arith)
]

pub close_submitted-Spares :
    (b : ProductBrief) (ps : List String) (d : Desk) {d' : Desk}
    → close_submitted b ps d ≡ ok d'
    → Spares d d'
unfolding close_submitted cleared
close_submitted-Spares b [] d {d'} h = (ground arith, λ j. ground arith)
close_submitted-Spares b (p ∷ ps) d {d'} h =
    go (cancel_tasks b.id (unique (submitted_ids b.id (p ∷ ps) d.submissions)) d.db) h
  where
    go :
        (o : Outcome IntakeError Db)
        → (o >>= λ db. reopen_brief b (cleared b.id db d)) ≡ ok d'
        → Spares d d'
    go (throw e) q = cc
    go (ok db) q = reopen_brief-Spares b (cleared b.id db d) q

-- The bindings of the brief are closed before its version is another.
Current-invalidated :
    (id : String) (bs : List ProductBrief) (a : AcceptanceBinding)
    → Current bs a
    → Current (update brief_key id bump bs) (invalidated_if id a)
Current-invalidated id bs a f e = ground (
  arith,
  f,
  lookup-update brief_key id a.brief_id bump bs (λ r. refl),
  str_eq_iff id a.brief_id,
  str_eq_iff a.brief_id id,
)

any-invalidated :
    (id j : String) (rows : List AcceptanceBinding)
    → any (is_active_for j) rows ≡ false
    → any (is_active_for j) (map (invalidated_if id) rows) ≡ false
any-invalidated id j [] h = refl
any-invalidated id j (a ∷ rows) h =
    let rest = any-invalidated id j rows (ground arith) in ground (arith, rest)

pub Sole-invalidated :
    (id : String) (rows : List AcceptanceBinding) → Sole rows → Sole (map (invalidated_if id) rows)
unfolding Sole
Sole-invalidated id [] s = tt
Sole-invalidated id (a ∷ rows) (f, s) =
    (λ e. ground (arith, f, any-invalidated id a.brief_id rows), Sole-invalidated id rows s)

any-insert :
    (j : String) (a : AcceptanceBinding) (rows : List AcceptanceBinding)
    → any (is_active_for j) rows ≡ false
    → is_active_for j a ≡ false
    → any (is_active_for j) (insert a rows) ≡ false
any-insert j a [] h e = ground arith
any-insert j a (r ∷ rows) h e =
    let rest = any-insert j a rows (ground arith) e in ground (arith, rest)

pub Sole-insert :
    (a : AcceptanceBinding) (rows : List AcceptanceBinding)
    → any (is_active_for a.brief_id) rows ≡ false
    → Sole rows
    → Sole (insert a rows)
unfolding Sole
Sole-insert a [] h s = (λ e. refl, tt)
Sole-insert a (r ∷ rows) h (f, s) = (
  λ e. ground (
    arith,
    f e,
    any-insert r.brief_id a rows,
    str_eq_iff r.brief_id a.brief_id,
    str_eq_iff a.brief_id r.brief_id,
  ),
  Sole-insert a rows (ground arith) s,
)

pub All-invalidated :
    (id : String) (bs : List ProductBrief) (rows : List AcceptanceBinding)
    → All (Current bs) rows
    → All (Current (update brief_key id bump bs)) (map (invalidated_if id) rows)
All-invalidated id bs [] h = tt
All-invalidated id bs (a ∷ rows) (f, h) =
    (Current-invalidated id bs a f, All-invalidated id bs rows h)
