-- ===== src/Store.antt =====
-- internal/store: the Redis and Postgres access of the event path. A child module for each part.
pub mod Keys
pub mod Counters
pub mod Claims
pub mod Leaderboard
pub mod Signals
pub mod SignalEvents
pub mod PullRequests
pub mod Rebuild
