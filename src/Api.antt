-- ===== src/Api.antt =====
-- The custom resources (api/) and the parts of the Kubernetes objects that the controllers read.
pub mod Meta
pub mod StackResource
pub mod Stack
pub mod ImageBuild
pub mod Volume
