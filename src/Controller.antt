-- ===== src/Controller.antt =====
-- internal/controller: what the reconcilers share.
pub mod Verdict
pub mod SubReconciler
