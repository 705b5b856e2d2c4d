-- ===== src/Guest.antt =====
-- guest/: the init that boots as PID 1.
pub mod Baked
pub mod Firewall
pub mod Shutdown
pub mod Zeros
pub mod Storage
pub mod Etc
pub mod Landlock
pub mod Trace
pub mod Mounts
pub mod Hardening
pub mod Spawn
pub mod Entropy
pub mod Network
pub mod Boot
pub mod Seccomp
