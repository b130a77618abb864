-- ===== src/Snapshot.antt =====
-- internal/snapshot: the audit log, the comparison of archives, and the manager.
pub mod Archive
pub mod Audit
pub mod Diff
pub mod Manager
