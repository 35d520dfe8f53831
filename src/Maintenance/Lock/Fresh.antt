-- ===== src/Maintenance/Lock/Fresh.antt =====
-- src/maintenance/lock.ts: processes that start together where there is no lock file.
use multi_agent_build_system.Prelude.{
  ℕ, ◌≡◌, refl, sym, ◌∙◌, subst, ◌≢◌, inl, inr, Bool, true, false, List, [], ◌∷◌, arith, ltb, ◌==◌,
  Bool-cases,
}
use multi_agent_build_system.Maintenance.Lock.{
  LockFile, absent, created, Phase, opening, reading, removing, writing, holding, leaving, left,
  refused, is_held, write_record, move, System, advance, advance_all, is_owner,
}

-- Every process is about to open the file, for the first time.
abbrev pub fresh : System
fresh = record { file = absent; phase = λ p. opening 0 }

-- Where a process may stand as long as no lock is released or reclaimed.
abbrev is_first_try : Phase → Bool
is_first_try (opening n) = n == 0
is_first_try (reading n) = n == 0
is_first_try writing = true
is_first_try holding = true
is_first_try refused = true
is_first_try _ = false

abbrev has_file : LockFile → Bool
has_file absent = false
has_file (created q written) = true

abbrev has_read : Phase → Bool
has_read (reading n) = true
has_read refused = true
has_read _ = false

-- The owner of the lock created the file, and one who has seen a file still finds it.
record IsLocked (s : System) : Type 0 where
  pub first : (p : ℕ) → is_first_try (s.phase p) ≡ true
  pub owned : (p : ℕ) → is_owner (s.phase p) ≡ true → (w : Bool) × (s.file ≡ created p w)
  pub stays : (p : ℕ) → has_read (s.phase p) ≡ true → has_file s.file ≡ true

-- One step of a process, with what the invariant says of it.
record Moved (p : ℕ) (a : Phase) (f : LockFile) (b : Phase) (g : LockFile) : Type 0 where
  pub first : is_first_try b ≡ true
  pub owned : is_owner b ≡ true → (w : Bool) × (g ≡ created p w)
  pub stays : has_read b ≡ true → has_file g ≡ true
  pub kept : (q : ℕ) (w : Bool) → f ≡ created q w → (v : Bool) × (g ≡ created q v)

module _ (gone : ℕ → Bool) (alive : (q : ℕ) → gone q ≡ false) where
  held_file : (f : LockFile) → has_file f ≡ true → is_held gone f ≡ true
  held_file absent h = cc
  held_file (created q false) h = refl
  held_file (created q true) h = rw (alive q)

  move-Moved :
      (p : ℕ) (a : Phase) (f : LockFile)
      → is_first_try a ≡ true
      → (is_owner a ≡ true → (w : Bool) × (f ≡ created p w))
      → (has_read a ≡ true → has_file f ≡ true)
      → Moved p a f (move gone p a f).0 (move gone p a f).1
  unfolding move
  move-Moved p (opening n) absent first owned stays =
      let early : ltb n 2 ≡ true = ground arith in
      rw early
        (record { first = refl; owned = λ h. (false, refl); stays = λ h. cc; kept = λ q w e. cc })
  move-Moved p (opening n) (created q w) first owned stays =
      let early : ltb n 2 ≡ true = ground arith in
      rw early
        (record { first = first; owned = λ h. cc; stays = λ h. refl; kept = λ r v e. (v, e) })
  move-Moved p (reading n) f first owned stays =
      rw (held_file f (stays refl))
        (record { first = refl; owned = λ h. cc; stays = λ h. stays refl; kept = λ r v e. (v, e) })
  move-Moved p (removing n) f first owned stays = cc
  move-Moved p writing f first owned stays =
      let (w, e) = owned refl in
      let written : write_record p f ≡ created p true =
        subst (λ g. write_record p g ≡ created p true) (sym e) (ground arith) in
      record {
        first = refl;
        owned = λ h. (true, written);
        stays = λ h. cc;
        kept = λ r v at. (true, written ∙ ground (arith, e, at));
      }
  move-Moved p holding f first owned stays = record {
    first = refl;
    owned = owned;
    stays = λ h. cc;
    kept = λ r v e. (v, e);
  }
  move-Moved p leaving f first owned stays = cc
  move-Moved p left f first owned stays = cc
  move-Moved p refused f first owned stays = record {
    first = refl;
    owned = λ h. cc;
    stays = stays;
    kept = λ r v e. (v, e);
  }

  file_there : (f : LockFile) → has_file f ≡ true → (q : ℕ) × (w : Bool) × (f ≡ created q w)
  file_there absent h = cc
  file_there (created q w) h = (q, w, refl)

  advance-IsLocked : (p : ℕ) (s : System) → IsLocked s → IsLocked (advance gone p s)
  unfolding advance
  advance-IsLocked p s l =
      let m = move-Moved p (s.phase p) s.file (l.first p) (l.owned p) (l.stays p) in
      record {
        first = λ q. elim (Bool-cases (q == p)) [
          | inl same ↦ rw same m.first
          | inr other_one ↦ rw other_one (l.first q)
        ];
        owned = λ q. elim (Bool-cases (q == p)) [
          | inl same ↦
              let e : p ≡ q = ground arith in
              rw same (λ h.
                let (w, at) = m.owned h in
                (w, subst (λ x. (move gone p (s.phase p) s.file).1 ≡ created x w) e at))
          | inr other_one ↦ rw other_one (λ h. let (w, at) = l.owned q h in m.kept q w at)
        ];
        stays = λ q. elim (Bool-cases (q == p)) [
          | inl same ↦ rw same m.stays
          | inr other_one ↦ rw other_one (λ h.
              let (r, w, at) = file_there s.file (l.stays q h) in
              let (v, at') = m.kept r w at in subst (λ g. has_file g ≡ true) (sym at') refl)
        ];
      }

  advance_all-IsLocked :
      (schedule : List ℕ) (s : System) → IsLocked s → IsLocked (advance_all gone schedule s)
  unfolding advance_all
  advance_all-IsLocked [] s l = l
  advance_all-IsLocked (p ∷ schedule) s l =
      advance_all-IsLocked schedule (advance gone p s) (advance-IsLocked p s l)

  fresh-IsLocked : IsLocked fresh
  fresh-IsLocked = record { first = λ p. refl; owned = λ p h. cc; stays = λ p h. cc }

  -- Where there is no lock file and every process is alive, a process that takes the maintenance lock keeps
  -- every other of any number of processes from it until it is released, whatever the order of their steps.
  pub one_owner :
      (schedule : List ℕ) (p q : ℕ)
      → p ≢ q
      → is_owner ((advance_all gone schedule fresh).phase p) ≡ true
      → is_owner ((advance_all gone schedule fresh).phase q) ≡ false
  one_owner schedule p q apart mine =
      let l = advance_all-IsLocked schedule fresh fresh-IsLocked in
      let (v, at) = l.owned p mine in
      elim (Bool-cases (is_owner ((advance_all gone schedule fresh).phase q))) [
        | inr other_one ↦ other_one
        | inl yours ↦
            let (w, at') = l.owned q yours in
            let same : p ≡ q = ground (arith, at, at') in absurd (apart same)
      ]
