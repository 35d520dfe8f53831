-- ===== src/Maintenance.antt =====
-- src/maintenance: what is removed from the disk, and the lock that keeps the controller away meanwhile.
pub mod Retention
pub mod Lock
