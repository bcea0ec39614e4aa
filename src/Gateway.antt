-- ===== src/Gateway.antt =====
-- internal/gateway/gateway.go: lanes and the configuration. The children model the parts of the
-- gateway: the response cache, the rate limiter, admission, and the request handler.
pub mod Cache
pub mod Admission
pub mod Config
pub mod Limiter
mod Tests
pub mod Auth
pub mod Handler
pub mod Window
