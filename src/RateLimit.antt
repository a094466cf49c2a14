-- ===== src/RateLimit.antt =====
-- internal/platform/ratelimit: the sliding-window counter of requests.
pub mod Limiter
pub mod Bounds
pub mod Stretch
pub mod Calls
mod Tests
