-- ===== src/Workload.antt =====
-- internal/controller/stackresource/workload: the workload of a StackResource.
pub mod Readiness
pub mod Deployment
pub mod Gates
pub mod Crash
pub mod StatefulSet
pub mod Jobs
