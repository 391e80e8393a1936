-- ===== src/RateLimit.antt =====
-- The rate limiter of pkg/ratelimit/limiter.go. The Go runtime's float64 is the parameter `Floats`: a type and
-- the operations that the limiter uses.
pub mod Bucket
pub mod Limiter
pub mod Bounds
pub mod Isolation
mod Tests
