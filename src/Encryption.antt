-- ===== src/Encryption.antt =====
-- pkg/sqlcache/encryption/encrypt.go: the keys that the cache encrypts its objects with.
pub mod Manager
mod Tests
