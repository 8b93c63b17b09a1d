-- ===== src/Cli.antt =====
-- internal/cli: the commands.
pub mod Clients
pub mod Cf
pub mod Route
