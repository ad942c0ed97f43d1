-- ===== src/Router.antt =====
-- The source router: api/source-router/app.
pub mod Taxonomy
pub mod Eligibility
pub mod Covering
pub mod Coverage
pub mod Model
pub mod Reuse
pub mod Service
pub mod Known
pub mod Sound
mod Examples
