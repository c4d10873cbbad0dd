-- ===== src/Trajectory.antt =====
-- src/ddsleuth/trajectory.py: the schedules that are explored.
pub mod Causal
pub mod Descriptors
pub mod Inferred
pub mod Schedule
pub mod Selection
mod Tests
mod SelectionTests
