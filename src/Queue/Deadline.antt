-- ===== src/Queue/Deadline.antt =====
-- crates/treesync/src/queue/mod.rs: the deadline of a window.
use treesync.Prelude.{ℕ, ◌≤◌, ◌<◌, false, none, some, ◌≡◌, ◌⊎◌, length}
use treesync.Watcher.Stream.{EventStream, Received, event, ended, blocked}
use treesync.FilePath.{FilePath}
use treesync.Queue.{changes, walk}
use treesync.Queue.Wait.{Turn, backend, stopped, poll, Outcome, returned, waiting}

-- The call has returned a batch.
abbrev pub HasBatch : Outcome → Type 0
HasBatch (returned (some b) q) = Unit
HasBatch (returned none q) = ⊥
HasBatch (waiting q) = ⊥

-- A batch of changes that is returned although no poll came at the deadline: the window is full, or
-- the watcher has stopped.
abbrev pub IsEarly : Outcome → Type 0
IsEarly (returned (some (changes c)) q) =
    (q.config.max_pending ≤ length c.paths) ⊎ (q.stream.alive ≡ false)
IsEarly (returned (some (walk root)) q) = Unit
IsEarly (returned none q) = Unit
IsEarly (waiting q) = Unit

abbrev pub IsBefore : ℕ → Turn → Type 0
IsBefore deadline (backend e) = Unit
IsBefore deadline stopped = Unit
IsBefore deadline (poll t first) = t < deadline

-- The stream ends only when the watcher has stopped.
abbrev EndsStopped : Received × EventStream → Type 0
EndsStopped (ended, s) = s.alive ≡ false
EndsStopped (blocked, s) = Unit
EndsStopped (event e, s) = Unit
