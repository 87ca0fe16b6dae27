-- ===== src/Sync.antt =====
-- packages/sync: the synchronisation of products, offers, orders, shipments and refunds.
pub mod Batching
pub mod Gtin
pub mod Money
pub mod Lines
pub mod Refunds
pub mod Store
pub mod Outside
mod Samples
pub mod Imports
pub mod Matching
pub mod OrderImport
pub mod Products
pub mod Catalog
pub mod ProductSync
pub mod Lifecycle
