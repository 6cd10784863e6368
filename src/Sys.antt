-- ===== src/Sys.antt =====
-- api/sys/: the system backend, a module per file.
pub mod Seal
pub mod Health
pub mod Mounts
pub mod Policy
pub mod Lease
pub mod Audit
pub mod Wrapping
pub mod Plugins
pub mod Raft
pub mod Namespaces
pub mod Quotas
pub mod Rekey
