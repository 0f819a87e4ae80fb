-- ===== src/RateLimit.antt =====
-- The two request limiters (python-back/app/modules/realtime_market/rate_limit.py and
-- python-back/app/modules/market_data/tushare/rate_limit.py). Both keep a queue of request times
-- and drop the times that have left a sliding window.
-- Clock readings (`time.monotonic()`) and durations are natural numbers of microseconds.
pub mod Window
pub mod Realtime
pub mod Tushare
