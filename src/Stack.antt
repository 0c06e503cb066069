-- ===== src/Stack.antt =====
-- internal/controller/stack: the Stack controller.
pub mod Children
pub mod State
pub mod Aggregate
