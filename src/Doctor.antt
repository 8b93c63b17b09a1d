-- ===== src/Doctor.antt =====
-- internal/doctor: the diagnostics of a node. What the probes find on the network and the disk are
-- arguments.
pub mod Checks
pub mod Perms
pub mod Probes
pub mod RuNode
pub mod EuNode
mod Examples
