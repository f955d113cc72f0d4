-- ===== src/Kernel.antt =====
-- rfsn_kernel: the pipeline that every tool call passes.
pub mod State
pub mod Policy
pub mod Simulate
pub mod Risk
pub mod Decide
pub mod Verify
pub mod RunState
pub mod Tier
pub mod Registry
pub mod Validate
pub mod FailureKinds
pub mod Normalize
pub mod Core
pub mod Guard
pub mod Commit
pub mod Settle
pub mod Reject
pub mod Step
pub mod Control
