-- ===== src/Maintenance/Lock/Race.antt =====
-- src/maintenance/lock.ts: two processes that find the lock of a process that is gone.
use multi_agent_build_system.Prelude.{
  ℕ, ◌≡◌, refl, ap, ◌≢◌, Bool, true, false, List, [], ◌∷◌, arith,
}
use multi_agent_build_system.Maintenance.Lock.{
  LockFile, absent, created, Phase, opening, reading, removing, writing, holding, move, System,
  advance, advance_all,
}

-- The file was left by a process, and everyone is about to open it.
abbrev pub stale : ℕ → System
stale old = record { file = created old true; phase = λ p. opening 0 }

-- The first takes the stale file away and makes its own between the reading and the removal of the second.
abbrev pub race : ℕ → ℕ → List ℕ
race p q = p ∷ q ∷ p ∷ q ∷ p ∷ p ∷ p ∷ q ∷ q ∷ q ∷ []

module _ (gone : ℕ → Bool) (old p q : ℕ) (dead : gone old ≡ true) (apart : p ≢ q) where
  -- The file and the two processes.
  record Stands (f : LockFile) (a b : Phase) (s : System) : Type 0 where
    pub file : s.file ≡ f
    pub first : s.phase p ≡ a
    pub second : s.phase q ≡ b

  first_step :
      (f g : LockFile) (a b c : Phase) (s : System)
      → move gone p a f ≡ (c, g)
      → Stands f a b s
      → Stands g c b (advance gone p s)
  unfolding advance
  first_step f g a b c s e h =
      let same : move gone p (s.phase p) s.file ≡ (c, g) = rw (h.first, h.file) e in
      record {
        file = ap (λ x. x.1) same;
        first = ground (arith, ap (λ x. x.0) same);
        second = ground (arith, h.second);
      }

  second_step :
      (f g : LockFile) (a b c : Phase) (s : System)
      → move gone q b f ≡ (c, g)
      → Stands f a b s
      → Stands g a c (advance gone q s)
  unfolding advance
  second_step f g a b c s e h =
      let same : move gone q (s.phase q) s.file ≡ (c, g) = rw (h.second, h.file) e in
      record {
        file = ap (λ x. x.1) same;
        first = ground (arith, h.first);
        second = ground (arith, ap (λ x. x.0) same);
      }

  reads_stale :
      (r : ℕ) → move gone r (reading 0) (created old true) ≡ (removing 0, created old true)
  unfolding move
  reads_stale r = rw dead

  writes : (r : ℕ) → move gone r writing (created r false) ≡ (holding, created r true)
  unfolding move
  writes r = ground arith

  start : Stands (created old true) (opening 0) (opening 0) (stale old)
  start = record { file = refl; first = refl; second = refl }

  -- Both have read the stale file.
  both_read :
      Stands
        (created old true)
        (removing 0)
        (removing 0)
        (advance gone q (advance gone p (advance gone q (advance gone p (stale old)))))
  unfolding move
  both_read = second_step _ _ _ _ _ _ (reads_stale q) (
      first_step _ _ _ _ _ _ (reads_stale p)
        (second_step _ _ _ _ _ _ refl (first_step _ _ _ _ _ _ refl start)))

  -- One that is about to remove the file removes it and takes the lock, whoever created it.
  first_takes :
      (f : LockFile) (b : Phase) (s : System)
      → Stands f (removing 0) b s
      → Stands (created p true) holding b (advance gone p (advance gone p (advance gone p s)))
  unfolding move
  first_takes f b s h = first_step _ _ _ _ _ _ (writes p) (
      first_step absent (created p false) (opening 1) b writing _ refl
        (first_step f absent (removing 0) b (opening 1) s refl h))

  second_takes :
      (f : LockFile) (a : Phase) (s : System)
      → Stands f a (removing 0) s
      → Stands (created q true) a holding (advance gone q (advance gone q (advance gone q s)))
  unfolding move
  second_takes f a s h = second_step _ _ _ _ _ _ (writes q) (
      second_step absent (created q false) a (opening 1) writing _ refl
        (second_step f absent a (removing 0) (opening 1) s refl h))

  -- Any two processes that find the lock of a process that is gone may both come to hold the lock: the
  -- second removes the file that the first has created in place of the stale one.
  pub both_hold :
      ((advance_all gone (race p q) (stale old)).phase p ≡ holding)
      × ((advance_all gone (race p q) (stale old)).phase q ≡ holding)
  unfolding advance_all
  both_hold = let end = second_takes _ _ _ (first_takes _ _ _ both_read) in (end.first, end.second)
