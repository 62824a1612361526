-- ===== src/Grpc.antt =====
-- pkg/api/grpcserver, file by file.
pub mod Config
pub mod Metadata
pub mod HealthBridge
pub mod RpcErrors
pub mod Interceptors
pub mod RequestContext
pub mod Lifecycle
pub mod Construction
