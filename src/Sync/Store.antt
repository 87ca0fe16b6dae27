-- ===== src/Sync/Store.antt =====
-- packages/database/src/repositories: the rows that the synchronisation keeps, and the operations on
-- them. A table is the list of its rows, newest last; an id is a number, taken from a counter. Dates
-- and the request and response summaries of log rows are left out, and so is a row that another
-- process deletes between a read and an update.
pub mod Rules
pub mod Rows
pub mod Jobs
pub mod Claims
pub mod Orders
pub mod Catalog
