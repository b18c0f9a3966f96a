-- ===== src/Syncer.antt =====
-- Parts of pkg/syncer, the daemon's side: the slices that answer a read, and the filter that keeps
-- the daemon's own writes out of the changes that it reports, and the order of path locks.
pub mod Slices
pub mod SelfWrite
pub mod Locker
pub mod Files
pub mod Os
pub mod Resolution
pub mod Messages
pub mod Audit
pub mod Handle
pub mod Scan
pub mod Watch
pub mod Sensitive
