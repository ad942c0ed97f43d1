-- ===== src/Worker.antt =====
-- The validation worker: api/validate-asertions/main.py.
pub mod Circuit
pub mod Budget
pub mod Recovery
pub mod Opening
pub mod Evidences
pub mod Verdicts
pub mod Support
pub mod Errors
mod Examples
