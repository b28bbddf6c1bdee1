-- ===== src/Split.antt =====
-- Splitting the Safe batches of a deployment into ordered slots (tools/splitMsigBatchesLib.ts).
pub mod Types
pub mod Selectors
pub mod Batches
mod Tests
