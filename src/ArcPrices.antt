-- ===== src/ArcPrices.antt =====
-- The price sync of the Arc accountants: tools/syncArcPrices.ts.
pub mod Rate
pub mod Code
pub mod Api
pub mod Checks
pub mod Run
pub mod Watched
pub mod Keeps
pub mod Sends
pub mod Due
pub mod Properties
mod Tests
