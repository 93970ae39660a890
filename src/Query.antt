-- ===== src/Query.antt =====
-- The filter language of list requests: pkg/stores/sqlpartition/queryparser/selector.go.
pub mod Token
pub mod Lexer
pub mod Requirement
pub mod Outcome
pub mod Parser
mod Tests
