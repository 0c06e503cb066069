-- ===== src/PortCheck.antt =====
-- pkg/portcheck: dialing the declared ports of a workload, outside the reconcile threads.
pub mod Dialer
pub mod Verifier
