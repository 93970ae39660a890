-- ===== src/Listing.antt =====
-- The lists of the store without a cache: pkg/stores/partition/parallel.go, which reads the
-- partitions, and the cut into pages of pkg/stores/partition/listprocessor/processor.go.
pub mod Parallel
pub mod Pages
mod Tests
