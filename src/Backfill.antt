-- ===== src/Backfill.antt =====
-- internal/backfill: the export is loaded in stages and published when it is verified.
pub mod Manifest
pub mod Checks
pub mod Parquet
pub mod Loader
pub mod Counting
pub mod Verified
pub mod Finished
pub mod Copies
pub mod Loaded
pub mod Stages
pub mod Examples
