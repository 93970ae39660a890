-- ===== src/Partitions.antt =====
-- From access lists to partitions, and from partitions to the rows that a list query selects.
pub mod Partitioner
pub mod Clauses
pub mod Proxy
mod Tests
mod ProxyTests
