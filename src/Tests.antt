-- ===== src/Tests.antt =====
-- Sample objects, runs of the definitions on them, and the theorems at concrete inputs.
mod Samples
mod Resources
mod Stacks
mod Ports
mod Chains
mod Workloads
mod Gates
mod Crashes
mod Builds
mod ImageBuilds
mod Jobs
mod Volumes
mod Waiting
