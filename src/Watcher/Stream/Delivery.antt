-- ===== src/Watcher/Stream/Delivery.antt =====
-- crates/treesync/src/watcher/mod.rs: what `recv` tells the consumer.
use treesync.Prelude.{List, [], ◌∷◌, true, false, Bool-cases, ◌≡◌, ◌⊎◌, inl, inr, All, arith}
use treesync.FilePath.{FilePath, starts_with, IsWellFormed}
use treesync.Watcher.Event.{WatchEvent, fs, rescan}
use treesync.Watcher.Scope
use treesync.Watcher.Scope.{RescanSignal, lost, lost_directory, taken}
use treesync.Watcher.Scope.Coverage.{
  Covers, IsSoundScope, suffer-IsSound, suffer-keeps, suffer-Covers, path, taken-covers,
}
use treesync.Watcher.Dispatch.Send.{InQueue, Accounted}
use treesync.Watcher.Stream.{
  EventStream, Received, event, ended, blocked, lose, purge, purged, take_rescan, pop, recv,
}

abbrev pub IsWellFormedEvent : WatchEvent → Type 0
IsWellFormedEvent (fs e) = IsWellFormed e.path
IsWellFormedEvent (rescan root) = Unit

purge-keeps :
    (s : RescanSignal) (es : List WatchEvent) (d : FilePath)
    → IsSoundScope s.scope
    → All IsWellFormedEvent es
    → Covers s d
    → Covers (purge s es) d
unfolding purge lose
purge-keeps s [] d h w k = k
purge-keeps s (fs e ∷ es) d h (w, ws) k =
    purge-keeps (lost s e.path) es d (suffer-IsSound s (path e.path) h w) ws
      (suffer-keeps s (path e.path) d h k)
purge-keeps s (rescan root ∷ es) d h (w, ws) k = purge-keeps s es d h ws k

purge-Covers :
    (s : RescanSignal) (es : List WatchEvent) (p : FilePath)
    → IsSoundScope s.scope
    → All IsWellFormedEvent es
    → InQueue es p
    → Covers (purge s es) (lost_directory p)
unfolding purge lose
purge-Covers s [] p h w i = absurd i
purge-Covers s (fs e ∷ es) p h (w, ws) (inl q) =
    purge-keeps (lost s e.path) es _ (suffer-IsSound s (path e.path) h w) ws
      (suffer-Covers s (path e.path) _ h (rw q))
purge-Covers s (fs e ∷ es) p h (w, ws) (inr i) =
    purge-Covers (lost s e.path) es p (suffer-IsSound s (path e.path) h w) ws i
purge-Covers s (rescan root ∷ es) p h w (inl q) = absurd q
purge-Covers s (rescan root ∷ es) p h (w, ws) (inr i) = purge-Covers s es p h ws i

-- The consumer is told of `p`: by an event for it, or by a rescan of a directory that contains
-- the directory of `p`.
abbrev pub Delivers : Received → FilePath → Type 0
Delivers (event (fs e)) p = e.path ≡ p
Delivers (event (rescan t)) p = starts_with (lost_directory p) t ≡ true
Delivers ended p = ⊥
Delivers blocked p = ⊥

abbrev pub IsEvent : Received → Type 0
IsEvent (event e) = Unit
IsEvent ended = ⊥
IsEvent blocked = ⊥

-- The two cases of `recv`.
pub recv-gap :
    (s : EventStream)
    → s.channel.signal.pending ≡ true
    → recv s ≡ (event (purged s).0, (purged s).1)
unfolding recv take_rescan
recv-gap s h = ground arith

pub recv-queue :
    (s : EventStream) → s.channel.signal.pending ≡ false → recv s ≡ pop s s.channel.queued
unfolding recv take_rescan
recv-queue s h = ground arith

purged-Delivers :
    (s : EventStream) (p : FilePath)
    → IsSoundScope s.channel.signal.scope
    → All IsWellFormedEvent s.channel.queued
    → starts_with (lost_directory p) s.root ≡ true
    → Accounted s.channel p
    → s.channel.signal.pending ≡ true
    → Delivers (event (purged s).0) p
unfolding purged Scope.take
purged-Delivers s p h w under (inl i) g =
    taken-covers _ s.root _ (purge-Covers s.channel.signal s.channel.queued p h w i).1 under
purged-Delivers s p h w under (inr k) g =
    taken-covers _ s.root _ (purge-keeps s.channel.signal s.channel.queued _ h w k).1 under

pop-Delivers :
    (s : EventStream) (es : List WatchEvent) (p : FilePath)
    → InQueue es p
    → IsEvent (pop s es).0 × (Delivers (pop s es).0 p ⊎ Accounted (pop s es).1.channel p)
unfolding pop
pop-Delivers s [] p i = absurd i
pop-Delivers s (fs e ∷ es) p (inl q) = (tt, inl q)
pop-Delivers s (rescan t ∷ es) p (inl q) = absurd q
pop-Delivers s (e ∷ es) p (inr i) = (tt, inr (inl i))

-- A path that is accounted for, with its directory in the watched tree: `recv` returns an event at
-- once, and either that event tells the consumer of the path (it names it, or it is a rescan of a
-- directory that contains the path's directory) or the path is still accounted for afterwards.
-- So no change that was accounted for is dropped by the purge behind a gap.
pub recv-Delivers :
    (s : EventStream) (p : FilePath)
    → IsSoundScope s.channel.signal.scope
    → All IsWellFormedEvent s.channel.queued
    → starts_with (lost_directory p) s.root ≡ true
    → Accounted s.channel p
    → IsEvent (recv s).0 × (Delivers (recv s).0 p ⊎ Accounted (recv s).1.channel p)
recv-Delivers s p h w under a = elim (Bool-cases s.channel.signal.pending) [
  | inl g ↦ rw (recv-gap s g) (tt, inl (purged-Delivers s p h w under a g))
  | inr q ↦ elim a [
    | inl i ↦ rw (recv-queue s q) (pop-Delivers s s.channel.queued p i)
    | inr k ↦ cc (k.0)
  ]
]
