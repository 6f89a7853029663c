-- ===== src/Queue/Tests.antt =====
-- Runs of the queue's operations on small inputs, and the properties at such inputs.
mod Samples
pub mod Witnesses
pub mod Runs
