-- ===== src/RateLimit.antt =====
-- uni_api/rate_limit: rules, sliding windows and the key pool.
pub mod Policy
pub mod Windows
pub mod State
pub mod KeyPool
