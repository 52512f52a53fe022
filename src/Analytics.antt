-- ===== src/Analytics.antt =====
-- crates/analytics/src/lib.rs: the rate limiter, the reach of blocks and the traffic sources.
pub mod RateLimiter
pub mod Reach
pub mod Traffic
