-- ===== src/Watcher/Stream.antt =====
-- crates/treesync/src/watcher/mod.rs: `EventStream`, the receiving half.
-- The purge is one step here; events that arrive while it runs are as if they came after it.
pub mod Delivery
use treesync.Prelude.{List, [], ◌∷◌, Bool, true, false, Option, none, some, if◌then◌else◌}
use treesync.FilePath.{FilePath}
use treesync.Watcher.Event.{FsEvent, WatchEvent, fs, rescan}
use treesync.Watcher.Scope
use treesync.Watcher.Scope.{RescanSignal, lost}
use treesync.Watcher.Dispatch.{Channel}

-- `alive` says that a sender is still there, so that an empty queue may fill again.
pub record EventStream : Type 0 where
  pub channel : Channel
  pub root : FilePath
  pub alive : Bool

-- What a wait for the next event comes to. `blocked`: nothing is there, and something may come.
pub data Received : Type 0 where
  event : WatchEvent → Received
  ended : Received
  blocked : Received

unfoldable pub lose : RescanSignal → WatchEvent → RescanSignal
lose signal (fs e) = lost signal e.path
lose signal (rescan root) = signal

-- `while let Ok(event) = self.rx.try_recv()`
unfoldable pub purge : RescanSignal → List WatchEvent → RescanSignal
unfolding lose
purge signal [] = signal
purge signal (e ∷ es) = purge (lose signal e) es

unfoldable pub purged : EventStream → WatchEvent × EventStream
unfolding purge
purged s =
    let signal = purge s.channel.signal s.channel.queued in
    let (root, cleared) = Scope.take signal s.root in
    (rescan root, record s { channel = record s.channel { queued = []; signal = cleared } })

unfoldable pub take_rescan : EventStream → Option (WatchEvent × EventStream)
unfolding purged
take_rescan s = if s.channel.signal.pending then some (purged s) else none

unfoldable pub pop : EventStream → List WatchEvent → Received × EventStream
pop s [] = (if s.alive then blocked else ended, s)
pop s (e ∷ es) = (event e, record s { channel = record s.channel { queued = es } })

unfoldable pub recv : EventStream → Received × EventStream
unfolding take_rescan pop
recv s = elim (take_rescan s) [ some (e, after) ↦ (event e, after) | none ↦ pop s s.channel.queued ]

unfoldable pub received : Received → Option WatchEvent
received (event e) = some e
received ended = none
received blocked = none

unfoldable pub try_recv : EventStream → Option WatchEvent × EventStream
unfolding recv received
try_recv s = let (r, after) = recv s in (received r, after)

-- The future of a `recv`, which is polled until it is ready: `started` has not been polled, and
-- `parked` is past its check of the signal and waits for the channel.
pub data Recv : Type 0 where
  started parked : Recv

unfoldable pub poll_recv : Recv → EventStream → Received × EventStream
unfolding recv pop
poll_recv started s = recv s
poll_recv parked s = pop s s.channel.queued
