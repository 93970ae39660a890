-- ===== src/Options.antt =====
-- The list options of a request: pkg/stores/sqlpartition/listprocessor/processor.go and
-- pkg/stores/queryhelper/safesplit.go.
pub mod Fields
pub mod Types
pub mod Parameters
mod Tests
