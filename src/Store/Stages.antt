-- ===== src/Store/Stages.antt =====
-- src/store/records.ts: executions and their stages.
mod Episodes
mod Reserve
mod Finish
mod Gates
pub mod Fences
unfoldable pub use Episodes.*
unfoldable pub use Reserve.*
unfoldable pub use Finish.*
unfoldable pub use Gates.*
