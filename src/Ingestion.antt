-- ===== src/Ingestion.antt =====
-- internal/ingestion: how the warehouse follows the chain.
pub mod Fetcher
pub mod Sink
pub mod Stream
pub mod Subscriber
pub mod Record
pub mod Plan
pub mod Provider
pub mod Batch
pub mod Run
pub mod Aligned
pub mod Guards
pub mod Forks
pub mod Warehouse
pub mod Examples
