-- ===== src/Api.antt =====
-- The internal HTTP API: src/internal-api.ts, src/api/http-router.ts and src/api/helpers.ts.
pub mod Text
pub mod Router
pub mod Matching
pub mod Routing
pub mod Server
pub mod Guard
pub mod Labels
mod Tests
