-- ===== src/Intake/Revised.antt =====
-- src/intake/store.ts: what `updateBrief` leaves.
use multi_agent_build_system.Prelude.{
  ℕ, ◌+◌, String, ◌≡◌, refl, sym, subst, not, Option, none, some, List, [], ◌∷◌, map, arith, ◌==◌,
  is_empty, find, is_blank, ok, ◌>>=◌, ◌>>◌, throw_if,
}
use multi_agent_build_system.Store.Table.{lookup-update_self}
use multi_agent_build_system.Intake.Briefs.{
  ProductBrief, AcceptanceBinding, Desk, IntakeError, unknown_brief, no_summary, nothing_changed,
  brief_key, get_brief, found_or, is_active_for, active_acceptance, invalidated_if,
  invalidate_acceptance,
}
use multi_agent_build_system.Intake.Update.{bump, close_submitted, written, update_brief}
use multi_agent_build_system.Intake.Current.{
  version_of, IsSettled, Spares-IsSettled, close_submitted-Spares, Sole-invalidated,
  All-invalidated,
}

unfoldable opened : String → Desk → Desk
opened id d = (invalidate_acceptance id (written id d)).0

opened-IsSettled : (id : String) (d : Desk) → IsSettled d → IsSettled (opened id d)
unfolding IsSettled invalidate_acceptance written opened
opened-IsSettled id d s =
    (All-invalidated id d.briefs d.acceptances s.0, Sole-invalidated id d.acceptances s.1)

pub update_brief-IsSettled :
    (id : String) (expected : ℕ) (summary : String) (changed : List String) (d : Desk) {d' : Desk}
    → update_brief id expected summary changed d ≡ ok d'
    → IsSettled d
    → IsSettled d'
unfolding update_brief opened
update_brief-IsSettled id expected summary changed d {d'} h s = go (get_brief id d) h
  where
    go :
        (o : Option ProductBrief)
        → (found_or o (unknown_brief id) >>= λ b.
            throw_if
              (not (b.version == expected))
              (IntakeError.version_changed id expected b.version)
            >> throw_if (is_blank summary) no_summary
            >> throw_if (is_empty changed) nothing_changed
            >> close_submitted (bump b) (invalidate_acceptance id (written id d)).1 (opened id d))
          ≡ ok d'
        → IsSettled d'
    go none e = cc
    go (some b) e =
        Spares-IsSettled (opened id d) d'
          (close_submitted-Spares (bump b) (invalidate_acceptance id (written id d)).1 (opened id d)
            {d' = d'} (ground arith))
          (opened-IsSettled id d s)

find-invalidated :
    (id : String) (rows : List AcceptanceBinding)
    → find (is_active_for id) (map (invalidated_if id) rows) ≡ none
find-invalidated id [] = refl
find-invalidated id (a ∷ rows) = let rest = find-invalidated id rows in ground (arith, rest)

-- An update that succeeds was made against the brief's own version, which it raises by one, and leaves the
-- brief without an active acceptance.
pub update_brief-active_acceptance :
    (id : String) (expected : ℕ) (summary : String) (changed : List String) (d : Desk) {d' : Desk}
    → update_brief id expected summary changed d ≡ ok d'
    → (b : ProductBrief) × (get_brief id d ≡ some b)
      × (b.version ≡ expected)
      × (version_of id d'.briefs ≡ some (expected + 1))
      × (active_acceptance id d' ≡ none)
unfolding update_brief opened invalidate_acceptance written active_acceptance get_brief
update_brief-active_acceptance id expected summary changed d {d'} h = go (get_brief id d) refl h
  where
    go :
        (o : Option ProductBrief)
        → get_brief id d ≡ o
        → (found_or o (unknown_brief id) >>= λ b.
            throw_if
              (not (b.version == expected))
              (IntakeError.version_changed id expected b.version)
            >> throw_if (is_blank summary) no_summary
            >> throw_if (is_empty changed) nothing_changed
            >> close_submitted (bump b) (invalidate_acceptance id (written id d)).1 (opened id d))
          ≡ ok d'
        → (b : ProductBrief) × (get_brief id d ≡ some b)
          × (b.version ≡ expected)
          × (version_of id d'.briefs ≡ some (expected + 1))
          × (active_acceptance id d' ≡ none)
    go none at e = cc
    go (some b) at e =
        let version : b.version ≡ expected = ground arith in
        let (rows, versions) =
          close_submitted-Spares (bump b) (invalidate_acceptance id (written id d)).1 (opened id d)
            {d' = d'} (ground arith) in
        (
          b,
          at,
          version,
          ground (
            arith,
            versions id,
            version,
            at,
            lookup-update_self brief_key id bump d.briefs (λ r. refl) at,
          ),
          subst (λ as'. find (is_active_for id) as' ≡ none) (sym rows)
              (find-invalidated id d.acceptances),
        )
