-- ===== src/StackResource.antt =====
-- internal/controller/stackresource: the StackResource controller.
pub mod Conditions
pub mod Summary
pub mod StatusDerive
pub mod Reconcile
pub mod Builds
pub mod Dependencies
