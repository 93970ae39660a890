-- ===== src/Queries.antt =====
-- The queries of the cache: constructQuery of pkg/sqlcache/informer/listoption_indexer.go.
pub mod Text
pub mod Columns
pub mod Filters
pub mod Joined
pub mod Construct
mod Tests
