-- ===== src/Errors.antt =====
-- api-gateway/src/canton/errors.ts: error categories, status details and Canton's error strings.
pub mod Category
pub mod Wire
pub mod Details
pub mod Message
pub mod Command
mod Tests
