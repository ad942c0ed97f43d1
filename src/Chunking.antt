-- ===== src/Chunking.antt =====
-- Chunks of a document and the windows around them: api/evidence-search/app/chunker.py.
pub mod Sentences
pub mod Windows
pub mod Cover
pub mod Cut
pub mod Rounds
pub mod Chunks
pub mod Ids
mod Examples
