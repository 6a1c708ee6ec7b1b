-- ===== src/Gateway.antt =====
-- The global router in front of the clusters: deploy/global-router.
pub mod RateLimiter
pub mod Connections
pub mod Firewall
pub mod Config
pub mod Routing
mod Tests
