-- ===== src/Redis.antt =====
-- internal/repository/redis: the rate limiter and the lock, on one key, with the time of the server and
-- that of the program one clock in milliseconds.
pub mod RateLimiter
pub mod Lock
