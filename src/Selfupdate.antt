-- ===== src/Selfupdate.antt =====
-- internal/selfupdate/selfupdate.go: replacing the running binary by the latest release. A call of the
-- operating system may fail at any point: the n-th call asks the environment, whose answers are an
-- argument, and a failed write leaves any file behind.
pub mod Errors
pub mod Disk
pub mod Install
pub mod Gate
pub mod Http
