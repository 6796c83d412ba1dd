-- ===== src/Tests.antt =====
-- Concrete packets, rows and libraries, and the theorems of the development on them.
pub mod Data
pub mod Caches
pub mod Catalog
pub mod Queries
pub mod Streams
pub mod Completeness
pub mod Pipeline
pub mod Registry
pub mod Accounts
pub mod Archive
pub mod Quality
