-- ===== src/Fetching.antt =====
-- Fetching of documents: api/evidence-search/app/document_fetcher.py.
pub mod Net
pub mod Body
pub mod Redirects
pub mod Limits
pub mod Safety
pub mod Outcomes
pub mod Retries
pub mod Attempts
pub mod Failures
mod Examples
