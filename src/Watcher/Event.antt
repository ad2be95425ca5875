-- ===== src/Watcher/Event.antt =====
-- crates/treesync/src/watcher/event.rs
use treesync.Prelude.{ℕ, Option}
use treesync.FilePath.{FilePath}

pub data EventKind : Type 0 where
  create modify attrib delete moved_from moved_to : EventKind

-- `tracker` is the backend's rename cookie.
pub record FsEvent : Type 0 where
  pub kind : EventKind
  pub path : FilePath
  pub tracker : Option ℕ

pub data WatchEvent : Type 0 where
  fs : FsEvent → WatchEvent
  rescan : FilePath → WatchEvent
