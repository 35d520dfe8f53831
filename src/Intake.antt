-- ===== src/Intake.antt =====
-- src/intake: the product briefs of src/intake/store.ts with their proposals and acceptances, and the
-- handlers of src/intake/service.ts that present and accept a proposal.
pub mod Briefs
pub mod Update
pub mod Accept
pub mod Current
pub mod Considered
pub mod Revised
pub mod Bound
pub mod Accepts
