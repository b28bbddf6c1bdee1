-- ===== src/Deploy.antt =====
-- The deployment of a vault on a chain: tools/deploy.ts.
pub mod Args
pub mod World
pub mod Targets
pub mod Forge
pub mod Steps
pub mod Main
pub mod Quiet
pub mod Sent
pub mod Deferred
pub mod Stale
mod Tests
