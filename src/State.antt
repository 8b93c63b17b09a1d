-- ===== src/State.antt =====
-- internal/state: the deployment's description, the values that vary between deployments, and the stored
-- clients.
pub mod Beat
pub mod Clients
pub mod Config
pub mod Fingerprint
pub mod Store
