-- ===== src/Watches.antt =====
-- The watches of the cache: pkg/sqlcache/informer, synthetic_watcher.go and the
-- watches of listoption_indexer.go.
pub mod Buffer
pub mod Log
pub mod Synthetic
mod LogTests
mod Tests
