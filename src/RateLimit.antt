-- ===== src/RateLimit.antt =====
-- Rate limits: `RateLimitMiddleware` and `PayloadSizeMiddleware` of backend/app/core/rate_limit.py. Redis
-- answers; where it does not, the source lets the request pass.
pub mod Middleware
pub mod Window
mod Tests
