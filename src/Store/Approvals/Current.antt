-- ===== src/Store/Approvals/Current.antt =====
-- src/store/records.ts: what `decideApproval` checks of an approval before it grants it.
use multi_agent_build_system.Prelude.{
  String, ◌≡◌, ◌≢◌, ◌↔◌, inl, inr, some, [], arith, str_eq_iff, Option-cases, ok,
}
use multi_agent_build_system.Policy.{merge, action_eq_iff}
use multi_agent_build_system.Store.{ApprovalState, Approval, Project, Db}
use multi_agent_build_system.Store.Approvals.{
  get_approval, get_project, task_revision, drift, approve, decide_approval,
}

-- What an approval is bound to still stands: the project with the configuration, the revision of the
-- task if it has one, and for a merge the branch of the project.
pub record IsCurrent (a : Approval) (d : Db) : Type 0 where
  pub project : Project
  pub registered : get_project a.project_id d ≡ some project
  pub configuration : project.config_version ≡ a.binding.config_version
  pub revision : (r : String) → task_revision a.task_id d ≡ some r → r ≢ "" → r ≡ a.binding.revision
  pub branch : a.binding.action ≡ merge → a.binding.target ≡ project.base_branch

no_drift-IsCurrent : (a : Approval) (d : Db) → drift a d ≡ [] → IsCurrent a d
unfolding drift
no_drift-IsCurrent a d h = elim (Option-cases (get_project a.project_id d)) [
  | inl missing ↦ absurd (ground arith)
  | inr (p, found) ↦ record {
    project = p;
    registered = found;
    configuration = ground (arith, str_eq_iff p.config_version a.binding.config_version);
    revision = λ r at some_text. ground (arith, str_eq_iff r "", str_eq_iff r a.binding.revision);
    branch = λ is_merge.
        ground
          (arith, str_eq_iff a.binding.target p.base_branch, action_eq_iff a.binding.action merge);
  }
]

IsCurrent-no_drift : (a : Approval) (d : Db) → IsCurrent a d → drift a d ≡ []
unfolding drift
IsCurrent-no_drift a d c = elim (Option-cases (task_revision a.task_id d)) [
  | inl missing ↦ ground (
    arith,
    c.registered,
    c.configuration,
    c.branch,
    str_eq_iff c.project.config_version a.binding.config_version,
    str_eq_iff a.binding.target c.project.base_branch,
    action_eq_iff a.binding.action merge,
  )
  | inr (r, at) ↦ ground (
    arith,
    c.registered,
    c.configuration,
    c.branch,
    c.revision r at,
    str_eq_iff r "",
    str_eq_iff r a.binding.revision,
    str_eq_iff c.project.config_version a.binding.config_version,
    str_eq_iff a.binding.target c.project.base_branch,
    action_eq_iff a.binding.action merge,
  )
]

granted :
    (id : String) (d : Db)
    → (decide_approval id approve d).1 ≡ ok tt
    → (a : Approval) × (get_approval id d ≡ some a)
      × (a.state ≡ ApprovalState.pending)
      × (drift a d ≡ [])
unfolding decide_approval
granted id d h = elim (Option-cases (get_approval id d)) [
  | inl missing ↦ absurd (ground arith)
  | inr (a, found) ↦ (a, found, ground arith, ground arith)
]

grants :
    (id : String) (d : Db) (a : Approval)
    → get_approval id d ≡ some a
    → a.state ≡ ApprovalState.pending
    → drift a d ≡ []
    → (decide_approval id approve d).1 ≡ ok tt
unfolding decide_approval
grants id d a found waits same = ground arith

-- An approval is granted exactly when it is pending and what it is bound to still stands.
pub approve_iff :
    (id : String) (d : Db)
    → ((decide_approval id approve d).1 ≡ ok tt) ↔ (
        (a : Approval) × (get_approval id d ≡ some a)
        × (a.state ≡ ApprovalState.pending)
        × IsCurrent a d)
approve_iff id d = (
  λ h.
      let (a, found, waits, same) = granted id d h in
      (a, found, waits, no_drift-IsCurrent a d same),
  λ (a, found, waits, current). grants id d a found waits (IsCurrent-no_drift a d current),
)
