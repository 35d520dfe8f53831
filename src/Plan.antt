-- ===== src/Plan.antt =====
-- src/domain/plan.ts: execution plans. A plan is read as JSON whose fields have their types; a word that
-- should be one of a few is a text, and a priority is a natural.
pub mod Graph
pub mod Draft
pub mod Checks
pub mod Fragments
pub mod Ownership
pub mod Validate
pub mod Checked
pub mod Apart
pub mod Accepted
