-- ===== src/Internal.antt =====
-- src/proxy/internal.rs: what the proxy does with one request.
pub mod Normalize
pub mod Runtime
pub mod Effect
pub mod Transparent
pub mod Connect
pub mod Serve
pub mod Upgrade
pub mod Routing
pub mod Service
