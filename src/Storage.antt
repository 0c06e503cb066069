-- ===== src/Storage.antt =====
-- internal/controller/volume: the contents of volumes.
pub mod VolumeSync
