-- ===== src/Evidence.antt =====
-- Evidence of a verdict: api/common/utils/evidence.py.
pub mod Url
pub mod Contexts
pub mod Citable
pub mod Claims
pub mod Grounding
pub mod Citations
pub mod Support
mod Examples
