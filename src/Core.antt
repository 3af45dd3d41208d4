-- ===== src/Core.antt =====
-- app/core: what every request passes through.
pub mod RateLimit
pub mod Errors
pub mod Middleware
pub mod Security
pub mod ClientIp
pub mod Config
