-- ===== src/Queue.antt =====
-- Recorded migrations, proposed later: tools/migrationQueueStore.ts and tools/queueMigration.ts.
pub mod Store
pub mod Args
pub mod Run
mod Tests
