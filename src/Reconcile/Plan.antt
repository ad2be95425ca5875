-- ===== src/Reconcile/Plan.antt =====
-- crates/treesync/src/reconcile/mod.rs: `plan`. A call that pushes onto the plan returns the plan
-- with the pushed actions at its end.
pub mod Parts
pub mod Comparison
pub mod Under
pub mod Exact
use treesync.Prelude.{
  List, [], ◌∷◌, ◌++◌, Bool, true, false, not, ◌&&◌, ◌||◌, Option, none, some, ◌==◌, if◌then◌else◌,
}
use treesync.FilePath.{FilePath}
use treesync.Reconcile.Config.{Scope, paths, subtree, Preserve, ReconcileConfig}
use treesync.Reconcile.Entry.{
  Entry, Metadata, file, dir, symlink, differs_from, is_dir, metadata, metadata_differs,
}
use treesync.Reconcile.Index.{Index, get, contains, under}
use treesync.Reconcile.Action.{Action, create_dir, copy_file, create_symlink, remove, set_metadata}
use treesync.Reconcile.Order.{order}

-- `match existing { None => true, Some(existing) => entry.differs_from(existing) }`
unfoldable pub needs_replacing : Entry → Option Entry → Bool
needs_replacing entry none = true
needs_replacing entry (some existing) = differs_from entry existing

-- A kind change cannot be done in place.
unfoldable pub changes_kind : Entry → Option Entry → Bool
changes_kind entry none = false
changes_kind entry (some existing) =
    is_dir existing && not (is_dir entry) || not (is_dir existing) && is_dir entry

unfoldable pub creation : FilePath → Entry → Action
creation path (dir _) = create_dir path
creation path (file _ _ _ _) = copy_file path
creation path (symlink target) = create_symlink path target

-- The actions that the `match` of `push_comparison` pushes.
unfoldable pub content_actions :
    ReconcileConfig → FilePath → Option Entry → Option Entry → List Action
unfolding needs_replacing changes_kind creation
content_actions config path none (some existing) = if config.delete then remove path ∷ [] else []
content_actions config path none none = []
content_actions config path (some entry) existing =
    if needs_replacing entry existing
    then (if changes_kind entry existing && config.delete then remove path ∷ [] else [])
      ++ (creation path entry ∷ [])
    else []

-- `source.and_then(Entry::metadata)`
unfoldable pub metadata_of : Option Entry → Option Metadata
metadata_of none = none
metadata_of (some entry) = metadata entry

unfoldable pub metadata_needed : Metadata → Option Metadata → Preserve → Bool
metadata_needed wanted none preserve = true
metadata_needed wanted (some current) preserve = metadata_differs wanted current preserve

unfoldable pub stamp_actions : FilePath → Preserve → Option Metadata → Option Metadata → List Action
unfolding metadata_needed
stamp_actions path preserve none current = []
stamp_actions path preserve (some wanted) current =
    if metadata_needed wanted current preserve then set_metadata path wanted ∷ [] else []

-- The actions that `push_metadata` pushes.
unfoldable pub metadata_actions :
    ReconcileConfig → FilePath → Option Entry → Option Entry → List Action
unfolding stamp_actions metadata_of
metadata_actions config path source target =
    if not config.preserve.mode && not config.preserve.ownership
    then []
    else stamp_actions path config.preserve (metadata_of source) (metadata_of target)

unfoldable pub push_metadata :
    List Action → Option Entry → Option Entry → FilePath → ReconcileConfig → List Action
unfolding metadata_actions
push_metadata plan source target path config = plan ++ metadata_actions config path source target

unfoldable pub push_comparison :
    List Action → Index → Index → FilePath → ReconcileConfig → List Action
unfolding content_actions push_metadata
push_comparison plan source target path config =
    push_metadata (plan ++ content_actions config path (get source path) (get target path))
      (get source path) (get target path) path config

-- `for (path, _) in source.under(prefix)`
unfoldable pub compare_all :
    List Action → Index → Index → ReconcileConfig → List FilePath → List Action
unfolding push_comparison
compare_all plan source target config [] = plan
compare_all plan source target config (p ∷ ps) =
    compare_all (push_comparison plan source target p config) source target config ps

-- `for (path, _) in target.under(prefix)`: what the source does not have.
unfoldable pub remove_all : List Action → Index → List FilePath → List Action
remove_all plan source [] = plan
remove_all plan source (p ∷ ps) =
    remove_all (if not (contains source p) then plan ++ (remove p ∷ []) else plan) source ps

unfoldable pub plan_under : List Action → Index → Index → ReconcileConfig → FilePath → List Action
unfolding compare_all remove_all under
plan_under plan source target config prefix =
    let compared = compare_all plan source target config (under prefix source) in
    if config.delete then remove_all compared source (under prefix target) else compared

unfoldable pub plan_paths :
    List Action → Index → Index → ReconcileConfig → List FilePath → List Action
unfolding plan_under
plan_paths plan source target config [] = plan
plan_paths plan source target config (p ∷ ps) =
    plan_paths (plan_under plan source target config p) source target config ps

unfoldable pub gathered : Index → Index → Scope → ReconcileConfig → List Action
unfolding plan_under plan_paths
gathered source target (paths ps) config = plan_paths [] source target config ps
gathered source target (subtree prefix) config = plan_under [] source target config prefix

unfoldable pub plan : Index → Index → Scope → ReconcileConfig → List Action
unfolding gathered order
plan source target scope config = order (gathered source target scope config)
