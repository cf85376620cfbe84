-- ===== src/Ratelimit.antt =====
-- backend/internal/ratelimit/ratelimit.go: the keyed limiter and the key that it is given.
pub mod ClientIp
pub mod Hops
pub mod Limiter
pub mod Isolation
