-- ===== src/Config.antt =====
-- crates/treesync/src/config/file.rs: the settings as the file has them, and as the running
-- components take them. A duration is its milliseconds, a path its components.
pub mod Resolve
pub mod Validate
use treesync.Prelude.{ℕ, List, Bool, Option, none}
use treesync.FilePath.{FilePath}
use treesync.Error.{Text}
use treesync.Queue.{QueueConfig}
use treesync.Reconcile.Config.{Verify, Preserve, ReconcileConfig}
use treesync.Remote.Options.{Options}

pub record Metrics : Type 0 where
  pub listen : Option Text

pub record Delta : Type 0 where
  pub enabled : Bool
  pub min_size : ℕ
  pub block_size : Option ℕ

pub record Defaults : Type 0 where
  pub delay : Option ℕ
  pub max_pending : Option ℕ
  pub delete : Option Bool
  pub verify : Option Verify
  pub preserve : Option Preserve
  pub delta : Option Delta

abbrev pub no_defaults : Defaults
no_defaults = record {
  delay = none;
  max_pending = none;
  delete = none;
  verify = none;
  preserve = none;
  delta = none;
}

pub data Target : Type 0 where
  local : (path : FilePath) → Target
  ssh :
      (host : Text) (path : FilePath) (port : Option ℕ)
      (identity_file agent_path agent_binary : Option FilePath) (ssh_options : List Text)
      → Target

-- `Target::path`
unfoldable pub target_path : Target → FilePath
target_path (local path) = path
target_path (ssh _ path _ _ _ _ _) = path

unfoldable pub agent_binary : Target → Option FilePath
agent_binary (local path) = none
agent_binary (ssh _ _ _ _ _ binary _) = binary

pub record Sync : Type 0 where
  pub name : Text
  pub source : FilePath
  pub target : Target
  pub exclude : List Text
  pub delay : Option ℕ
  pub max_pending : Option ℕ
  pub delete : Option Bool
  pub verify : Option Verify
  pub preserve : Option Preserve
  pub delta : Option Delta

pub record Config : Type 0 where
  pub defaults : Defaults
  pub syncs : List Sync
  pub metrics : Metrics

pub record ResolvedSync : Type 0 where
  pub name : Text
  pub source : FilePath
  pub target : Target
  pub exclude : List Text
  pub queue : QueueConfig
  pub reconcile : ReconcileConfig
  pub delta : Options
