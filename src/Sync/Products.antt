-- ===== src/Sync/Products.antt =====
-- The payloads of product and offer imports: packages/sync/src/adapters/decathlon.adapter.ts.
pub mod Models
pub mod Sizes
pub mod Values
pub mod Fillings
pub mod Builder
pub mod Offers
