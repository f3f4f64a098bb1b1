-- ===== src/Tests.antt =====
-- The theorems at concrete inputs: prices in thousandths, one symbol, small books and queues.
mod Data
mod Rings
mod Numbers
mod Counters
mod Servers
mod Logs
mod Mains
mod Pools
mod Stores
mod Files
mod Fixes
mod Strategies
mod Decisions
mod Fills
