-- ===== src/Archive.antt =====
-- The package parser: api-gateway/src/services/package-parser.ts.
pub mod Reader
pub mod Encoding
pub mod Wrap
pub mod Parser
pub mod Engine
pub mod Package
pub mod Zip
pub mod Entries
mod Tests
