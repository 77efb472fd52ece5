-- ===== src/Update.antt =====
-- UpdateServiceClient and its response mapping:
-- api-gateway/src/canton/services/update-service.ts. The service calls are in `Streams`.
pub mod Mapping
pub mod Detail
pub mod Diff
pub mod Ids
pub mod Roots
pub mod Children
pub mod Collisions
pub mod Recent
mod Tests
