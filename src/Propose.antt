-- ===== src/Propose.antt =====
-- Proposing the slots of a split to a Safe: `runProposePhase` of tools/proposePhase.ts, and
-- `proposeBatch` of tools/safePropose.ts, which it calls.
pub mod Step
pub mod Phase
pub mod Posts
pub mod Loop
pub mod Properties
pub mod Delivered
pub mod Sample
mod Tests
