-- ===== src/Examples/Paths.antt =====
-- Sample paths, events and streams of a watched tree.
use treesync.Prelude.{[], ◌∷◌, none, true, false}
use treesync.FilePath.{FilePath, root_dir, normal, name, IsWellFormed}
use treesync.Watcher.Event.{modify, FsEvent, fs}
use treesync.Watcher.Scope
use treesync.Watcher.Dispatch.{Channel, NotifyEvent, created, folder}
use treesync.Watcher.Stream.{EventStream}

-- /w, /w/a, /w/a/x, /w/a/y and /w/b
abbrev pub watched : FilePath
watched = root_dir ∷ normal (b'w' ∷ []) ∷ []

abbrev pub dir_a : FilePath
dir_a = root_dir ∷ normal (b'w' ∷ []) ∷ normal (b'a' ∷ []) ∷ []

abbrev pub file_x : FilePath
file_x = root_dir ∷ normal (b'w' ∷ []) ∷ normal (b'a' ∷ []) ∷ normal (b'x' ∷ []) ∷ []

abbrev pub file_y : FilePath
file_y = root_dir ∷ normal (b'w' ∷ []) ∷ normal (b'a' ∷ []) ∷ normal (b'y' ∷ []) ∷ []

abbrev pub file_b : FilePath
file_b = root_dir ∷ normal (b'w' ∷ []) ∷ normal (b'b' ∷ []) ∷ []

abbrev pub changed : FilePath → FsEvent
changed p = record { kind = modify; path = p; tracker = none }

-- A full channel of two changes whose consumer owes a walk under /w/a.
abbrev pub full_channel : Channel
full_channel = record {
  queued = fs (changed file_x) ∷ fs (changed file_b) ∷ [];
  capacity = 2;
  closed = false;
  signal = record { pending = true; scope = Scope.subtree dir_a };
}

abbrev pub quiet_channel : Channel
quiet_channel = record full_channel { signal = Scope.new }

abbrev pub gap_stream : EventStream
gap_stream = record { channel = full_channel; root = watched; alive = true }

abbrev pub quiet_stream : EventStream
quiet_stream = record gap_stream { channel = quiet_channel }

-- The directory /w/a appears.
abbrev pub new_folder : NotifyEvent
new_folder = record {
  kind = created folder;
  paths = dir_a ∷ [];
  tracker = none;
  need_rescan = false;
}

pub dir_a-IsWellFormed : IsWellFormed dir_a
dir_a-IsWellFormed = (name, (name, tt))

pub file_b-IsWellFormed : IsWellFormed file_b
file_b-IsWellFormed = (name, (name, tt))

pub file_x-IsWellFormed : IsWellFormed file_x
file_x-IsWellFormed = (name, (name, (name, tt)))

pub file_y-IsWellFormed : IsWellFormed file_y
file_y-IsWellFormed = (name, (name, (name, tt)))
