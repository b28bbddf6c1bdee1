-- ===== src/Morpho.antt =====
-- The Morpho bundle builder (tools/morpho/common.ts): quoting a move between two leveraged
-- positions, choosing the route, and building the Bundler3 calls that carry it out.
pub mod Types
pub mod Quote
pub mod Params
pub mod Route
pub mod Abi
pub mod Bundle
pub mod Sample
pub mod Tests
pub mod BundleTests
