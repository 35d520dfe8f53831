-- ===== src/Maintenance/Retention/Safe.antt =====
-- src/maintenance/retention.ts: what `pruneWorktrees` removes.
use multi_agent_build_system.Prelude.{
  ℕ, ◌≤◌, String, ◌≡◌, refl, sym, ap, ◌∙◌, subst, ◌⊎◌, inl, inr, Bool, true, false, Option, none,
  some, List, [], ◌∷◌, ◌++◌, arith, ltb, Bool-cases, Option-cases, or_default, All, All-map,
  All-append,
}
use multi_agent_build_system.Maintenance.Retention.{
  RetainedTask, RetainedProject, Disk, age_days, WorktreeCandidate, worktree_retention_days,
  project_named, is_missing, merged_branch, refusal_of, present_worktree, worktree_candidate,
  worktree_candidates, remove_candidate, clear_worktree, remove_all, prune_worktrees,
}

answered : (o : Option Bool) → or_default o true ≡ false → o ≡ some false
answered o h = ground arith

module _ (disk : Disk) (projects : List RetainedProject) (now : ℕ) where
  -- A worktree whose removal loses nothing: its task is over for as many days as the policy asks for, its project is
  -- registered, it has no uncommitted change, and the work is recorded or merged.
  pub record IsReclaimable (t : RetainedTask) (path : String) : Type 0 where
    pub project : RetainedProject
    pub days : ℕ
    pub is_over : worktree_retention_days t.state ≡ some days
    pub old_enough : days ≤ age_days t.finished_at now
    pub here : t.worktree_path ≡ some path
    pub registered : project_named projects t.project_id ≡ some project
    pub clean : disk.is_dirty path ≡ some false
    pub kept_elsewhere :
        (is_missing t.result_revision ≡ false) ⊎ (merged_branch disk project t.branch ≡ true)
    pub can_go : disk.can_remove path ≡ true

  -- The task of a candidate: what the candidate's path and refusal say of it.
  record IsOf (t : RetainedTask) (c : WorktreeCandidate) : Type 0 where
    pub days : ℕ
    pub is_over : worktree_retention_days t.state ≡ some days
    pub old_enough : days ≤ age_days t.finished_at now
    pub here : t.worktree_path ≡ some c.path
    pub refused : c.refusal ≡ refusal_of disk projects t c.path

  present-here :
      (t : RetainedTask) {path : String}
      → present_worktree disk t ≡ some path
      → t.worktree_path ≡ some path
  unfolding present_worktree
  present-here t h = ground arith

  abbrev OneOf : List RetainedTask → WorktreeCandidate → Type 0
  OneOf ts c =
      (before after : List RetainedTask) × (t : RetainedTask) × (ts ≡ before ++ t ∷ after)
      × IsOf t c

  no_candidate :
      (t : RetainedTask)
      → worktree_candidate disk projects now t ≡ []
      → All (IsOf t) (worktree_candidate disk projects now t)
  no_candidate t e = subst (λ cs. All (IsOf t) cs) (sym e) tt

  candidate-IsOf : (t : RetainedTask) → All (IsOf t) (worktree_candidate disk projects now t)
  unfolding worktree_candidate
  candidate-IsOf t = elim (Option-cases (worktree_retention_days t.state)) [
    | inl active ↦ no_candidate t (ground arith)
    | inr (days, ended) ↦ elim (Option-cases (present_worktree disk t)) [
      | inl missing ↦ no_candidate t (ground arith)
      | inr (path, present) ↦ elim (Bool-cases (ltb (age_days t.finished_at now) days)) [
        | inl young ↦ no_candidate t (ground arith)
        | inr old ↦
            let c : WorktreeCandidate = record {
              task_id = t.id;
              project_id = t.project_id;
              path = path;
              branch = t.branch;
              age = age_days t.finished_at now;
              limit = days;
              refusal = refusal_of disk projects t path;
            } in
            let one : worktree_candidate disk projects now t ≡ c ∷ [] = ground arith in
            let of_task : IsOf t c = record {
              days = days;
              is_over = ended;
              old_enough = ground arith;
              here = present-here t present;
              refused = refl;
            } in
            subst (λ cs. All (IsOf t) cs) (sym one) (of_task, tt)
      ]
    ]
  ]

  candidates-OneOf :
      (ts : List RetainedTask) → All (OneOf ts) (worktree_candidates disk projects now ts)
  unfolding worktree_candidates
  candidates-OneOf [] = tt
  candidates-OneOf (t ∷ ts) =
      All-append (OneOf (t ∷ ts)) (worktree_candidate disk projects now t)
        (worktree_candidates disk projects now ts)
        (All-map {Q = OneOf (t ∷ ts)} (λ c h. ([], ts, t, refl, h))
          (worktree_candidate disk projects now t) (candidate-IsOf t))
        (All-map {Q = OneOf (t ∷ ts)}
          (λ c h.
            let (before, after, u, split, of_task) = h in
            (t ∷ before, after, u, ap (λ us. t ∷ us) split, of_task))
          (worktree_candidates disk projects now ts) (candidates-OneOf ts))

  abbrev Removed : WorktreeCandidate → Type 0
  Removed c = (c.refusal ≡ none) × (disk.can_remove c.path ≡ true)

  removed_lem : (c : WorktreeCandidate) → (remove_candidate disk projects c).1 ≡ true → Removed c
  unfolding remove_candidate
  removed_lem c h = (ground arith, ground arith)

  remove_all-removed :
      (P : WorktreeCandidate → Type 0) (cs : List WorktreeCandidate) (ts : List RetainedTask)
      → All P cs
      → All (λ c. P c × Removed c) (remove_all disk projects cs ts).removed
  unfolding remove_all
  remove_all-removed P [] ts h = tt
  remove_all-removed P (c ∷ cs) ts (here, others) =
      elim (Bool-cases (remove_candidate disk projects c).1) [
        | inl gone ↦ rw gone (
          (here, removed_lem c gone),
          remove_all-removed P cs (clear_worktree c.task_id ts) others,
        )
        | inr stays ↦ rw stays (remove_all-removed P cs ts others)
      ]

  unrefused :
      (t : RetainedTask) (path : String)
      → refusal_of disk projects t path ≡ none
      → (p : RetainedProject) × (project_named projects t.project_id ≡ some p)
        × (disk.is_dirty path ≡ some false)
        × ((is_missing t.result_revision ≡ false) ⊎ (merged_branch disk p t.branch ≡ true))
  unfolding refusal_of
  unrefused t path h = elim (Option-cases (project_named projects t.project_id)) [
    | inl missing ↦ absurd (ground arith)
    | inr (p, found) ↦ elim (Bool-cases (or_default (disk.is_dirty path) true)) [
      | inl dirty ↦ absurd (ground arith)
      | inr clean ↦ (
        p,
        found,
        answered (disk.is_dirty path) clean,
        elim (Bool-cases (is_missing t.result_revision)) [
          | inr recorded ↦ inl recorded
          | inl missing ↦ inr (ground arith)
        ],
      )
    ]
  ]

  reclaimed_one :
      (ts : List RetainedTask) (c : WorktreeCandidate)
      → OneOf ts c × Removed c
      → (before after : List RetainedTask) × (t : RetainedTask) × (ts ≡ before ++ t ∷ after)
        × IsReclaimable t c.path
  reclaimed_one ts c ((before, after, t, split, o), (free, can_go)) =
      let (p, found, clean, kept) = unrefused t c.path (sym o.refused ∙ free) in
      (
        before,
        after,
        t,
        split,
        record {
          project = p;
          days = o.days;
          is_over = o.is_over;
          old_enough = o.old_enough;
          here = o.here;
          registered = found;
          clean = clean;
          kept_elsewhere = kept;
          can_go = can_go;
        },
      )

  -- Each directory that is removed is the worktree of a listed task that is done, failed or cancelled for as
  -- many days as the policy asks for, whose project is registered, that has no uncommitted change, and
  -- whose work is recorded as a result or merged into the base branch. A dry run removes none.
  pub pruned-IsReclaimable :
      (apply : Bool) (ts : List RetainedTask)
      → All
          (λ c.
            (before after : List RetainedTask) × (t : RetainedTask) × (ts ≡ before ++ t ∷ after)
            × IsReclaimable t c.path)
          (prune_worktrees disk projects now apply ts).removed
        × (apply ≡ false → (prune_worktrees disk projects now apply ts).removed ≡ [])
  unfolding prune_worktrees
  pruned-IsReclaimable false ts = (tt, λ e. refl)
  pruned-IsReclaimable true ts = (
    All-map (reclaimed_one ts)
        (remove_all disk projects (worktree_candidates disk projects now ts) ts).removed
        (remove_all-removed (OneOf ts) (worktree_candidates disk projects now ts) ts
          (candidates-OneOf ts)),
    λ e. cc,
  )
