-- ===== src/Decathlon.antt =====
-- packages/decathlon: the CSV files, the catalogue's reference data and the HTTP client.
pub mod Csv
pub mod Attributes
pub mod Http
