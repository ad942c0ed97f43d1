-- ===== src/Orders.antt =====
-- The orders of news-handler/main.py: the documents, the handlers of Kafka messages, and what they
-- keep.
pub mod Model
pub mod Registry
pub mod World
pub mod Counting
pub mod Responses
pub mod Publication
pub mod Dispatches
pub mod Generation
pub mod Process
pub mod Keeps
pub mod Kept
pub mod History
pub mod Pending
pub mod Accounting
pub mod Twice
pub mod Dispatch
pub mod Quota
pub mod Registration
mod Samples
mod Examples
