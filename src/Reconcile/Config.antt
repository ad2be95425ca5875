-- ===== src/Reconcile/Config.antt =====
-- crates/treesync/src/reconcile/mod.rs: the settings of a reconcile, and its scope.
use treesync.Prelude.{List, Bool, true, false}
use treesync.FilePath.{FilePath}

pub data Scope : Type 0 where
  paths : List FilePath → Scope
  subtree : FilePath → Scope

pub data Verify : Type 0 where
  quick checksum : Verify

pub record Preserve : Type 0 where
  pub mode : Bool
  pub ownership : Bool

abbrev pub default_preserve : Preserve
default_preserve = record { mode = true; ownership = false }

pub record ReconcileConfig : Type 0 where
  pub delete : Bool
  pub verify : Verify
  pub preserve : Preserve
