-- ===== src/Sync/OrderImport.antt =====
-- The order import of packages/sync/src/engine.ts: from the raw answer of Decathlon to the orders of
-- Shopify and their rows.
pub mod Models
pub mod Normalize
pub mod ShopifyInput
pub mod Import
