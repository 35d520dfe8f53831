-- ===== src/Maintenance/Lock.antt =====
-- src/maintenance/lock.ts: `acquireMaintenanceLock` by several processes at once. A process is known by its
-- number and takes one step for each call of the file system: the exclusive open, the read of the
-- holder, the removal, the write of its record, and the two of the release. Steps of different
-- processes come in any order. `gone` says which processes `verifyProcess` finds gone.
pub mod Fresh
pub mod Race
use multi_agent_build_system.Prelude.{
  ℕ, suc, Bool, true, false, not, List, [], ◌∷◌, ltb, ◌==◌, if◌then◌else◌,
}

-- The lock file: the process that created it, and whether that process has written its record. A file
-- without a record is one that cannot be read.
pub data LockFile : Type 0 where
  absent : LockFile
  created : ℕ → Bool → LockFile

-- Where a process stands in its `attempt`, and after it.
pub data Phase : Type 0 where
  opening reading removing : ℕ → Phase
  writing holding leaving left refused : Phase

-- A record counts as none where its process is gone, and an unreadable file as held.
abbrev pub is_held : (ℕ → Bool) → LockFile → Bool
is_held gone absent = false
is_held gone (created q false) = true
is_held gone (created q true) = not (gone q)

-- The record goes into the file that the process created, which may be the lock file no more.
abbrev pub write_record : ℕ → LockFile → LockFile
write_record p absent = absent
write_record p (created q written) = if q == p then created q true else created q written

-- `readHolder(path)?.pid === record.pid`
abbrev pub is_mine : ℕ → LockFile → Bool
is_mine p absent = false
is_mine p (created q false) = false
is_mine p (created q true) = q == p

-- The next step of a process that acquires the lock; one that holds it waits until it is told to release it.
unfoldable pub move : (ℕ → Bool) → ℕ → Phase → LockFile → Phase × LockFile
move gone p (opening n) absent =
    (if ltb n 2 then writing else refused, if ltb n 2 then created p false else absent)
move gone p (opening n) (created q written) =
    (if ltb n 2 then reading n else refused, created q written)
move gone p (reading n) file = (if is_held gone file then refused else removing n, file)
move gone p (removing n) file = (opening (suc n), absent)
move gone p writing file = (holding, write_record p file)
move gone p holding file = (holding, file)
move gone p leaving file = (left, absent)
move gone p left file = (left, file)
move gone p refused file = (refused, file)

pub record System : Type 0 where
  pub file : LockFile
  pub phase : ℕ → Phase

abbrev pub put_phase : ℕ → Phase → (ℕ → Phase) → ℕ → Phase
put_phase p a phases q = if q == p then a else phases q

unfoldable pub advance : (ℕ → Bool) → ℕ → System → System
unfolding move
advance gone p s =
    let (a, f) = move gone p (s.phase p) s.file in
    record { file = f; phase = put_phase p a s.phase }

-- The release that `acquireMaintenanceLock` returns: it reads the file, and then removes it if it is its own.
unfoldable pub release : ℕ → System → System
release p s = elim (s.phase p) [
  | holding ↦ record s { phase = put_phase p (if is_mine p s.file then leaving else left) s.phase }
  | other ↦ s
]

unfoldable pub advance_all : (ℕ → Bool) → List ℕ → System → System
unfolding advance
advance_all gone [] s = s
advance_all gone (p ∷ schedule) s = advance_all gone schedule (advance gone p s)

-- A process that has created the lock file and has not given it back.
abbrev pub is_owner : Phase → Bool
is_owner writing = true
is_owner holding = true
is_owner leaving = true
is_owner _ = false
