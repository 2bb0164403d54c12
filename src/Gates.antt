-- ===== src/Gates.antt =====
-- Quality gates: packages/evaluation-core/src/proofstep_core/gates.py.
pub mod Number
pub mod Rules
pub mod Regression
pub mod Apply
pub mod Calibration
pub mod Report
pub mod Examples
