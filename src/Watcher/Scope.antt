-- ===== src/Watcher/Scope.antt =====
-- crates/treesync/src/watcher/scope.rs: whether a walk is owed, and how much it must cover.
-- Each method holds the lock on the scope for as long as it reads and writes, so each is one step.
pub mod Ancestor
pub mod Coverage
pub mod Narrow
use treesync.Prelude.{Bool, true, false, Option, none, some, [], ◌∷◌, not, ◌==◌, if◌then◌else◌}
use treesync.FilePath.{FilePath, component_eq, push, parent, starts_with}

pub data Scope : Type 0 where
  clean : Scope
  subtree : FilePath → Scope
  everything : Scope

pub record RescanSignal : Type 0 where
  pub pending : Bool
  pub scope : Scope

abbrev pub new : RescanSignal
new = record { pending = false; scope = clean }

-- The loop of `common_ancestor` over the zipped components, with `shared` built by `push`.
unfoldable pub common_loop : FilePath → FilePath → FilePath → FilePath
common_loop shared (left ∷ a) (right ∷ b) =
    let deeper = common_loop (push shared left) a b in
    if not (left == right) then shared else deeper
common_loop shared _ _ = shared

unfoldable pub common_ancestor : FilePath → FilePath → FilePath
common_ancestor a b = common_loop [] a b

unfoldable pub widen_scope : Scope → FilePath → Scope
widen_scope clean directory = subtree directory
widen_scope (subtree existing) directory = subtree (common_ancestor existing directory)
widen_scope everything directory = everything

unfoldable pub widen : RescanSignal → FilePath → RescanSignal
unfolding widen_scope
widen s directory = record { pending = true; scope = widen_scope s.scope directory }

-- The directory that a lost path folds in: `path.parent().unwrap_or(path)`.
unfoldable pub lost_directory : FilePath → FilePath
lost_directory path = elim (parent path) [ none ↦ path | some d ↦ d ]

unfoldable pub lost : RescanSignal → FilePath → RescanSignal
unfolding widen lost_directory
lost s path = widen s (lost_directory path)

unfoldable pub lost_under : RescanSignal → FilePath → RescanSignal
unfolding widen
lost_under s directory = widen s directory

unfoldable pub lost_everything : RescanSignal → RescanSignal
lost_everything s = record { pending = true; scope = everything }

unfoldable pub taken : Scope → FilePath → FilePath
taken (subtree path) root = if starts_with path root then path else root
taken clean root = root
taken everything root = root

unfoldable pub take : RescanSignal → FilePath → FilePath × RescanSignal
unfolding taken
take s root = (taken s.scope root, record { pending = false; scope = clean })
