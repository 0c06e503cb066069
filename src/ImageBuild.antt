-- ===== src/ImageBuild.antt =====
-- internal/controller/imagebuild: the controller of ImageBuilds.
pub mod Calls
pub mod Status
pub mod Inputs
pub mod Job
pub mod Sources
pub mod Reconcile
