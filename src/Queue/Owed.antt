-- ===== src/Queue/Owed.antt =====
-- crates/treesync/src/queue/mod.rs: what becomes of a path that is pending or queued.
use treesync.Prelude.{
  ℕ, ◌+◌, List, [], ◌∷◌, Bool, true, false, Bool-cases, none, some, ◌≡◌, refl, ◌⊎◌, inl, inr, IsIn,
  length, ltb, leb, if_cases, if◌then◌else◌,
}
use mathlib.Core.Path.{subst}
use treesync.FilePath.{FilePath}
use treesync.Watcher.Event.{FsEvent, WatchEvent, fs, rescan}
use treesync.Watcher.Dispatch.{Channel, NotifyEvent, send_or_lose, send_all, dispatch}
use treesync.Watcher.Dispatch.Send.{InQueue, InQueue-append_left}
use treesync.Watcher.Stream.{
  EventStream, Received, event, ended, blocked, pop, purged, Recv, started, parked, poll_recv,
}
use treesync.Watcher.Stream.Delivery.{recv-gap, recv-queue}
use treesync.Queue.{EventQueue, changes, walk, insert, merge}
use treesync.Queue.Wait.{
  First, recv_first, timer_first, Turn, backend, stopped, poll, Outcome, returned, waiting, report,
  stop, flushed, rescanned, collected, select, collect, opening, wait, next_batch,
}
use treesync.Queue.Invariant.{insert-IsIn, insert-keeps}
use treesync.Queue.Merge.{merge-frame}
use treesync.Queue.Window.{has_room}

-- The path is pending, or an event for it is queued.
abbrev pub IsOwed : FilePath → EventQueue → Type 0
IsOwed p q = IsIn p q.pending ⊎ InQueue q.stream.channel.queued p

-- What a call comes to for `p`: in the batch of changes or still queued behind it, still owed where
-- there is no batch; of a walk, nothing is said.
abbrev pub IsKept : FilePath → Outcome → Type 0
IsKept p (returned (some (changes c)) q) = IsIn p c.paths ⊎ InQueue q.stream.channel.queued p
IsKept p (returned (some (walk root)) q) = Unit
IsKept p (returned none q) = IsOwed p q
IsKept p (waiting q) = IsOwed p q

send_or_lose-InQueue :
    (c : Channel) (e : FsEvent) (p : FilePath)
    → InQueue c.queued p
    → InQueue (send_or_lose c e).queued p
unfolding send_or_lose
send_or_lose-InQueue c e p i = elim (Bool-cases (ltb (length c.queued) c.capacity)) [
  | inl room ↦ rw room (InQueue-append_left c.queued (fs e ∷ []) p i)
  | inr full ↦ rw full i
]

send_all-InQueue :
    (es : List FsEvent) (c : Channel) (p : FilePath)
    → InQueue c.queued p
    → InQueue (send_all c es).queued p
unfolding send_all
send_all-InQueue [] c p i = i
send_all-InQueue (e ∷ es) c p i =
    if_cases (λ (x : Channel). InQueue x.queued p) c.closed c (send_all (send_or_lose c e) es)
      (λ shut. i) (λ live. send_all-InQueue es (send_or_lose c e) p (send_or_lose-InQueue c e p i))

dispatch-InQueue :
    (e : NotifyEvent) (c : Channel) (p : FilePath)
    → InQueue c.queued p
    → InQueue (dispatch e c).queued p
unfolding dispatch
dispatch-InQueue e c p i =
    if_cases (λ (x : Channel). InQueue x.queued p) e.need_rescan _ _ (λ gap. i)
      (λ change. send_all-InQueue _ _ p i)

module _ (p : FilePath) where
  flushed-IsKept : (now : ℕ) (q : EventQueue) → IsOwed p q → IsKept p (flushed now q)
  unfolding flushed
  flushed-IsKept now q o = o

  report-IsOwed : (e : NotifyEvent) (q : EventQueue) → IsOwed p q → IsOwed p (report e q)
  unfolding report
  report-IsOwed e q (inl i) = inl i
  report-IsOwed e q (inr i) = inr (dispatch-InQueue e q.stream.channel p i)

  stop-IsOwed : (q : EventQueue) → IsOwed p q → IsOwed p (stop q)
  unfolding stop
  stop-IsOwed q o = o

  -- A path that was queued is behind the event, or it is the event's.
  abbrev AfterRecv : List FilePath → Received × EventStream → Type 0
  AfterRecv ps (event (fs e), s) = (e.path ≡ p) ⊎ (IsIn p ps ⊎ InQueue s.channel.queued p)
  AfterRecv ps (event (rescan root), s) = Unit
  AfterRecv ps (ended, s) = IsIn p ps ⊎ InQueue s.channel.queued p
  AfterRecv ps (blocked, s) = IsIn p ps ⊎ InQueue s.channel.queued p

  pop-AfterRecv :
      (ps : List FilePath) (s : EventStream) (es : List WatchEvent)
      → s.channel.queued ≡ es
      → IsIn p ps ⊎ InQueue es p
      → AfterRecv ps (pop s es)
  unfolding pop
  pop-AfterRecv ps s [] q o = quiet s.alive
    where
      quiet : (b : Bool) → AfterRecv ps ((if b then blocked else ended), s)
      quiet true = rw q o
      quiet false = rw q o
  pop-AfterRecv ps s (rescan root ∷ es) q o = tt
  pop-AfterRecv ps s (fs e ∷ es) q (inl i) = inr (inl i)
  pop-AfterRecv ps s (fs e ∷ es) q (inr (inl h)) = inl h
  pop-AfterRecv ps s (fs e ∷ es) q (inr (inr h)) = inr (inr h)

  poll_recv-AfterRecv :
      (f : Recv) (q : EventQueue) → IsOwed p q → AfterRecv q.pending (poll_recv f q.stream)
  unfolding poll_recv
  poll_recv-AfterRecv parked q o = pop-AfterRecv q.pending q.stream q.stream.channel.queued refl o
  poll_recv-AfterRecv started q o = elim (Bool-cases q.stream.channel.signal.pending) [
    | inl g ↦ rw (recv-gap q.stream g) (unfold purged in tt)
    | inr n ↦
        rw (recv-queue q.stream n) (pop-AfterRecv q.pending q.stream q.stream.channel.queued refl o)
  ]

  pub merge-IsOwed :
      (now : ℕ) (e : FsEvent) (q : EventQueue)
      → (e.path ≡ p) ⊎ IsOwed p q
      → IsOwed p (merge now (fs e) q)
  merge-IsOwed now e q o =
      let (same, w, s, g) = merge-frame now e q in
      rw (same, s)
        (elim o [
          | inl h ↦ inl (
              subst (λ (x : FilePath). IsIn x (insert e.path q.pending)) h
                (insert-IsIn e.path q.pending))
          | inr (inl i) ↦ inl (insert-keeps e.path p q.pending i)
          | inr (inr i) ↦ inr i
        ])

  collected-IsKept :
      (deadline now : ℕ) (r : Received) (q : EventQueue) (more : Recv → EventQueue → Outcome)
      → AfterRecv q.pending (r, q.stream)
      → ((f : Recv) (w : EventQueue) → IsOwed p w → IsKept p (more f w))
      → IsKept p (collected deadline now r q more)
  unfolding collected
  collected-IsKept deadline now ended q more a k = flushed-IsKept now q a
  collected-IsKept deadline now (event (rescan root)) q more a k = unfold rescanned in tt
  collected-IsKept deadline now (event (fs e)) q more a k =
      k started (merge now (fs e) q) (merge-IsOwed now e q a)
  collected-IsKept deadline now blocked q more a k =
      if_cases (IsKept p) (leb deadline now) (flushed now q) (more parked q)
        (λ late. flushed-IsKept now q a) (λ early. k parked q a)

  select-IsKept :
      (deadline now : ℕ) (first : First) (f : Recv) (q : EventQueue)
      (more : Recv → EventQueue → Outcome)
      → IsOwed p q
      → ((g : Recv) (w : EventQueue) → IsOwed p w → IsKept p (more g w))
      → IsKept p (select deadline now first f q more)
  unfolding select
  select-IsKept deadline now recv_first f q more o k =
      collected-IsKept deadline now (poll_recv f q.stream).0
        (record q { stream = (poll_recv f q.stream).1 }) more (poll_recv-AfterRecv f q o) k
  select-IsKept deadline now timer_first f q more o k =
      if_cases (IsKept p) (leb deadline now) (flushed now q) _ (λ late. flushed-IsKept now q o)
        (λ early.
          collected-IsKept deadline now (poll_recv f q.stream).0
            (record q { stream = (poll_recv f q.stream).1 }) more (poll_recv-AfterRecv f q o) k)

  collect-IsKept :
      (deadline now : ℕ) (f : Recv) (q : EventQueue) (ts : List Turn)
      → IsOwed p q
      → IsKept p (collect deadline now f q ts)
  unfolding collect
  collect-IsKept deadline now f q [] o =
      if_cases (IsKept p) (has_room q) (waiting q) (flushed now q) (λ room. o)
        (λ full. flushed-IsKept now q o)
  collect-IsKept deadline now f q (backend e ∷ ts) o =
      if_cases (IsKept p) (has_room q) _ (flushed now q)
        (λ room. collect-IsKept deadline now f (report e q) ts (report-IsOwed e q o))
        (λ full. flushed-IsKept now q o)
  collect-IsKept deadline now f q (stopped ∷ ts) o =
      if_cases (IsKept p) (has_room q) _ (flushed now q)
        (λ room. collect-IsKept deadline now f (stop q) ts (stop-IsOwed q o))
        (λ full. flushed-IsKept now q o)
  collect-IsKept deadline now f q (poll t first ∷ ts) o =
      if_cases (IsKept p) (has_room q) _ (flushed now q)
        (λ room.
          select-IsKept deadline t first f q (λ g r. collect deadline t g r ts) o
            (λ g w k. collect-IsKept deadline t g w ts k))
        (λ full. flushed-IsKept now q o)

  opening-IsKept :
      (now : ℕ) (r : Received) (q : EventQueue) (window again : EventQueue → Outcome)
      → AfterRecv q.pending (r, q.stream)
      → ((w : EventQueue) → IsOwed p w → IsKept p (window w))
      → (IsOwed p q → IsKept p (again q))
      → IsKept p (opening now r q window again)
  unfolding opening
  opening-IsKept now ended q window again a k g = a
  opening-IsKept now (event (rescan root)) q window again a k g = unfold rescanned in tt
  opening-IsKept now (event (fs e)) q window again a k g =
      k (merge now (fs e) q) (merge-IsOwed now e q a)
  opening-IsKept now blocked q window again a k g = g a

  wait-IsKept : (f : Recv) (q : EventQueue) (ts : List Turn) → IsOwed p q → IsKept p (wait f q ts)
  unfolding wait
  wait-IsKept f q [] o = o
  wait-IsKept f q (backend e ∷ ts) o = wait-IsKept f (report e q) ts (report-IsOwed e q o)
  wait-IsKept f q (stopped ∷ ts) o = wait-IsKept f (stop q) ts (stop-IsOwed q o)
  wait-IsKept f q (poll t first ∷ ts) o =
      let r : EventQueue = record q { stream = (poll_recv f q.stream).1 } in
      opening-IsKept t (poll_recv f q.stream).0 r (λ w. collect (t + w.config.delay) t started w ts)
        (λ w. wait parked w ts) (poll_recv-AfterRecv f q o)
        (λ w k. collect-IsKept (t + w.config.delay) t started w ts k)
        (λ k. wait-IsKept parked r ts k)

-- `next_batch` loses no path unless it returns a walk. A path that is pending or queued when it is
-- called, whatever happens while it waits: it is in the batch of changes that is returned or still
-- queued behind it; and where nothing or no batch is returned, it is still pending or queued.
pub next_batch-IsKept :
    (p : FilePath) (q : EventQueue) (ts : List Turn) → IsOwed p q → IsKept p (next_batch q ts)
unfolding next_batch
next_batch-IsKept p q ts o = wait-IsKept p started q ts o
