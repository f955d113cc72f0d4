-- ===== src/Tests.antt =====
-- Tests of the models on concrete inputs, and the theorems applied at such inputs.
mod Fixtures
mod KernelSteps
mod Parts
mod Services
mod Agents
mod Memories
mod Replays
mod Gates
