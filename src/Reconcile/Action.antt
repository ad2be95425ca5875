-- ===== src/Reconcile/Action.antt =====
-- crates/treesync/src/reconcile/action.rs: the operations of a plan, and their counts.
pub mod Counts
use treesync.Prelude.{ℕ, ◌+◌, List, [], ◌∷◌, Bool, true, false, nat_eq}
use treesync.FilePath.{FilePath}
use treesync.Reconcile.Entry.{Metadata}

pub data Action : Type 0 where
  create_dir : FilePath → Action
  copy_file : FilePath → Action
  create_symlink : (path target : FilePath) → Action
  remove : FilePath → Action
  rename : (source target : FilePath) → Action
  set_metadata : FilePath → Metadata → Action

unfoldable pub path : Action → FilePath
path (create_dir p) = p
path (copy_file p) = p
path (create_symlink p t) = p
path (remove p) = p
path (rename s t) = t
path (set_metadata p m) = p

unfoldable pub is_remove : Action → Bool
is_remove (remove p) = true
is_remove _ = false

unfoldable pub is_metadata : Action → Bool
is_metadata (set_metadata p m) = true
is_metadata _ = false

pub record ActionCounts : Type 0 where
  pub create_dirs : ℕ
  pub copy_files : ℕ
  pub create_symlinks : ℕ
  pub removes : ℕ
  pub renames : ℕ
  pub set_metadatas : ℕ

abbrev pub no_actions : ActionCounts
no_actions = record {
  create_dirs = 0;
  copy_files = 0;
  create_symlinks = 0;
  removes = 0;
  renames = 0;
  set_metadatas = 0;
}

-- `ActionCounts::record`
unfoldable pub count_action : ActionCounts → Action → ActionCounts
count_action c (create_dir p) = record c { create_dirs = c.create_dirs + 1 }
count_action c (copy_file p) = record c { copy_files = c.copy_files + 1 }
count_action c (create_symlink p t) = record c { create_symlinks = c.create_symlinks + 1 }
count_action c (remove p) = record c { removes = c.removes + 1 }
count_action c (rename s t) = record c { renames = c.renames + 1 }
count_action c (set_metadata p m) = record c { set_metadatas = c.set_metadatas + 1 }

unfoldable pub total : ActionCounts → ℕ
total c = c.create_dirs + c.copy_files + c.create_symlinks + c.removes + c.renames + c.set_metadatas

unfoldable pub counts_from : ActionCounts → List Action → ActionCounts
unfolding count_action
counts_from c [] = c
counts_from c (a ∷ rest) = counts_from (count_action c a) rest

-- `Plan::counts`
unfoldable pub counts : List Action → ActionCounts
unfolding counts_from
counts actions = counts_from no_actions actions
