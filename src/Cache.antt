-- ===== src/Cache.antt =====
-- The cache of validators that news-handler keeps: its refresh from the chain's snapshot and its
-- update by validator events, api/news-handler/main.py.
pub mod Fields
pub mod Refresh
pub mod Events
pub mod Failures
pub mod Agreement
pub mod Merging
pub mod Survival
pub mod Stored
mod Examples
