-- ===== src/Http.antt =====
-- pkg/api/httpserver/server.go, part by part.
pub mod Config
pub mod RequestId
pub mod Lifecycle
pub mod Pipeline
pub mod Endpoints
mod Sample
pub mod Construction
