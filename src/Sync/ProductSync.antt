-- ===== src/Sync/ProductSync.antt =====
-- Product and offer synchronisation of packages/sync/src/engine.ts.
pub mod Shopify
pub mod Prepare
pub mod Products
pub mod Check
pub mod Offers
pub mod Tests
