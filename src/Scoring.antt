-- ===== src/Scoring.antt =====
-- Scoring of validations: api/common/utils/scoring.py, with the validator types and result names of
-- api/common/models/async_models.py.
pub mod Values
pub mod Weights
pub mod Detail
pub mod Consensus
pub mod Safe
pub mod Order
pub mod Verdicts
pub mod Snapshot
pub mod Errors
pub mod Results
pub mod Neutral
pub mod Fixed
mod Examples
