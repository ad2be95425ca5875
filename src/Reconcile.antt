-- ===== src/Reconcile.antt =====
-- crates/treesync/src/reconcile: the two snapshots, and the plan that brings one in line with the
-- other.
pub mod Entry
pub mod Index
pub mod Action
pub mod Sort
pub mod Order
pub mod Config
pub mod Plan
