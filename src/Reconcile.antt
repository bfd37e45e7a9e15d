-- ===== src/Reconcile.antt =====
-- pkg/reconcile: the background loops over the index.
pub mod Enqueue
pub mod Health
