-- ===== src/Tests.antt =====
-- Runs of the models on concrete inputs, and the theorems at inputs that meet their hypotheses.
mod SafePath
mod ContentCache
mod FsTree
mod Pending
mod Session
mod Manager
mod Service
mod Syncer
mod Daemon
mod Disk
mod Startup
mod Ratelimit
mod Pty
