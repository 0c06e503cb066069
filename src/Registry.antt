-- ===== src/Registry.antt =====
-- pkg/registry: where images are pushed to.
pub mod Reference
