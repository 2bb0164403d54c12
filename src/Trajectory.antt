-- ===== src/Trajectory.antt =====
-- The trajectory engine: packages/trajectory-engine/src/proofstep_trajectory.
pub mod Events
pub mod Schema
pub mod Normalized
pub mod Normalize
pub mod Predicates
pub mod Matchers
pub mod Engine
pub mod Evaluator
pub mod Examples
