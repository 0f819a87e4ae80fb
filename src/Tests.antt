-- ===== src/Tests.antt =====
-- Examples of the theorems at concrete inputs, one file for each part.
mod RateLimits
mod Schedules
mod Runs
mod Caches
mod Prices
mod TokenCalls
mod Research
mod Background
mod Changes
mod Papers
mod Verdicts
mod Baselines
mod Promises
mod ModelCalls
mod Pools
mod Watched
