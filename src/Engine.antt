-- ===== src/Engine.antt =====
-- engine/: connections, their transactions, and the operations that run on a worker thread.
pub mod Async
pub mod Connection
pub mod Driver
pub mod Row
pub mod Result
pub mod RowStream
pub mod Transaction
pub mod Url
pub mod Worker
