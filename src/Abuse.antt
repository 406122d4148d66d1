-- ===== src/Abuse.antt =====
-- internal/abuse: the layers that an anonymous create request passes.
pub mod Concurrency
pub mod Cookie
pub mod ClientIp
pub mod Turnstile
pub mod RateLimiter
pub mod Guard
mod Tests
