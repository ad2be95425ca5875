-- ===== src/Examples.antt =====
-- Concrete inputs for the theorems of the library, and tests of its definitions.
pub mod Paths
pub mod Watcher
pub mod Queue
pub mod Reconcile
pub mod Remote
pub mod Config
pub mod Delta
pub mod Transfer
pub mod Sink
