-- ===== src/Queue/Window.antt =====
-- crates/treesync/src/queue/mod.rs: `next_batch` over any list of turns.
use treesync.Prelude.{
  ℕ, ◌≤◌, ◌<◌, ◌+◌, suc, List, [], ◌∷◌, Bool, none, some, ◌≡◌, ◌≢◌, refl, All, length, arith, ltb,
  leb, ltb→lt, if_cases, nat_eq, list_eq,
}
use treesync.FilePath.{FilePath}
use treesync.Watcher.Event.{FsEvent, fs, rescan}
use treesync.Watcher.Stream.{
  EventStream, Received, event, ended, blocked, Recv, started, parked, poll_recv,
}
use treesync.Watcher.Dispatch.{NotifyEvent}
use treesync.Queue.{EventQueue, Changes, changes, walk, contains, insert, merge}
use treesync.Queue.Wait.{
  First, recv_first, timer_first, Turn, backend, stopped, poll, Outcome, returned, waiting, report,
  stop, flushed, rescanned, collected, select, collect, opening, wait, next_batch,
}
use treesync.Queue.Invariant.{IsDistinct, RenameIn, IsConsistent}
use treesync.Queue.Merge.{merge-IsConsistent, merge-frame}

abbrev pub IsGoodBatch : Changes → Type 0
IsGoodBatch c = (c.paths ≢ []) × IsDistinct c.paths × All (RenameIn c.paths) c.renames

abbrev pub IsGood : ℕ → Outcome → Type 0
IsGood bound (returned (some (changes c)) q) =
    IsGoodBatch c × (length c.paths ≤ bound) × (q.pending ≡ []) × IsConsistent q
IsGood bound (returned (some (walk root)) q) = (q.pending ≡ []) × IsConsistent q
IsGood bound (returned none q) = IsConsistent q
IsGood bound (waiting q) = IsConsistent q

pub IsConsistent-stream :
    (q : EventQueue) (s : EventStream) → IsConsistent q → IsConsistent (record q { stream = s })
IsConsistent-stream q s v = record {
  distinct = v.distinct;
  renamed = v.renamed;
  halves = v.halves;
  dated = v.dated;
}

flushed-IsGood :
    (bound now : ℕ) (q : EventQueue)
    → IsConsistent q
    → q.pending ≢ []
    → length q.pending ≤ bound
    → IsGood bound (flushed now q)
unfolding flushed
flushed-IsGood bound now q v n h = (
  (n, v.distinct, v.renamed),
  h,
  refl,
  record { distinct = tt; renamed = tt; halves = tt; dated = refl },
)

rescanned-IsGood : (bound : ℕ) (root : FilePath) (q : EventQueue) → IsGood bound (rescanned root q)
unfolding rescanned
rescanned-IsGood bound root q =
    (refl, record { distinct = tt; renamed = tt; halves = tt; dated = refl })

-- The state inside the window.
record IsOpen (bound : ℕ) (q : EventQueue) : Type 0 where
  valid : IsConsistent q
  busy : q.pending ≢ []
  capped : q.config.max_pending ≤ bound
  fits : length q.pending ≤ bound

length-insert : (p : FilePath) (ps : List FilePath) → length (insert p ps) ≤ suc (length ps)
unfolding insert
length-insert p ps = ground arith

insert-ne-nil : (p : FilePath) (ps : List FilePath) → insert p ps ≢ []
unfolding insert contains
insert-ne-nil p [] = λ e. cc
insert-ne-nil p (x ∷ xs) = ground arith

-- A change merged into a queue with room.
merge-IsOpen :
    (bound now : ℕ) (e : FsEvent) (q : EventQueue)
    → IsConsistent q
    → q.config.max_pending ≤ bound
    → suc (length q.pending) ≤ bound
    → IsOpen bound (merge now (fs e) q)
merge-IsOpen bound now e q v c h =
    let (p, w, s, g) = merge-frame now e q in
    record {
      valid = merge-IsConsistent now (fs e) q v;
      busy = rw p (insert-ne-nil e.path q.pending);
      capped = rw g c;
      fits = rw p (omega (arith, length-insert e.path q.pending));
    }

IsOpen-stream :
    (bound : ℕ) (q : EventQueue) (s : EventStream)
    → IsOpen bound q
    → IsOpen bound (record q { stream = s })
IsOpen-stream bound q s o = record {
  valid = IsConsistent-stream q s o.valid;
  busy = o.busy;
  capped = o.capped;
  fits = o.fits;
}

report-IsOpen :
    (bound : ℕ) (e : NotifyEvent) (q : EventQueue) → IsOpen bound q → IsOpen bound (report e q)
unfolding report
report-IsOpen bound e q o = IsOpen-stream bound q _ o

stop-IsOpen : (bound : ℕ) (q : EventQueue) → IsOpen bound q → IsOpen bound (stop q)
unfolding stop
stop-IsOpen bound q o = IsOpen-stream bound q _ o

open-flushed : (bound now : ℕ) (q : EventQueue) → IsOpen bound q → IsGood bound (flushed now q)
open-flushed bound now q o = flushed-IsGood bound now q o.valid o.busy o.fits

abbrev pub has_room : EventQueue → Bool
has_room q = ltb (length q.pending) q.config.max_pending

collected-IsGood :
    (bound deadline now : ℕ) (r : Received) (q : EventQueue) (more : Recv → EventQueue → Outcome)
    → IsOpen bound q
    → length q.pending < q.config.max_pending
    → ((f : Recv) (w : EventQueue) → IsOpen bound w → IsGood bound (more f w))
    → IsGood bound (collected deadline now r q more)
unfolding collected
collected-IsGood bound deadline now ended q more o h k = open-flushed bound now q o
collected-IsGood bound deadline now (event (rescan root)) q more o h k =
    rescanned-IsGood bound root q
collected-IsGood bound deadline now (event (fs e)) q more o h k =
    k started (merge now (fs e) q)
      (merge-IsOpen bound now e q o.valid o.capped (omega (arith, o.capped, h)))
collected-IsGood bound deadline now blocked q more o h k =
    if_cases (IsGood bound) (leb deadline now) (flushed now q) (more parked q)
      (λ late. open-flushed bound now q o) (λ early. k parked q o)

select-IsGood :
    (bound deadline now : ℕ) (first : First) (f : Recv) (q : EventQueue)
    (more : Recv → EventQueue → Outcome)
    → IsOpen bound q
    → length q.pending < q.config.max_pending
    → ((g : Recv) (w : EventQueue) → IsOpen bound w → IsGood bound (more g w))
    → IsGood bound (select deadline now first f q more)
unfolding select
select-IsGood bound deadline now recv_first f q more o h k =
    collected-IsGood bound deadline now (poll_recv f q.stream).0
      (record q { stream = (poll_recv f q.stream).1 }) more (IsOpen-stream bound q _ o) h k
select-IsGood bound deadline now timer_first f q more o h k =
    if_cases (IsGood bound) (leb deadline now) (flushed now q) _
      (λ late. open-flushed bound now q o)
      (λ early.
        collected-IsGood bound deadline now (poll_recv f q.stream).0
          (record q { stream = (poll_recv f q.stream).1 }) more (IsOpen-stream bound q _ o) h k)

collect-IsGood :
    (bound deadline now : ℕ) (f : Recv) (q : EventQueue) (ts : List Turn)
    → IsOpen bound q
    → IsGood bound (collect deadline now f q ts)
unfolding collect
collect-IsGood bound deadline now f q [] o =
    if_cases (IsGood bound) (has_room q) (waiting q) (flushed now q) (λ room. o.valid)
      (λ full. open-flushed bound now q o)
collect-IsGood bound deadline now f q (backend e ∷ ts) o =
    if_cases (IsGood bound) (has_room q) _ (flushed now q)
      (λ room. collect-IsGood bound deadline now f (report e q) ts (report-IsOpen bound e q o))
      (λ full. open-flushed bound now q o)
collect-IsGood bound deadline now f q (stopped ∷ ts) o =
    if_cases (IsGood bound) (has_room q) _ (flushed now q)
      (λ room. collect-IsGood bound deadline now f (stop q) ts (stop-IsOpen bound q o))
      (λ full. open-flushed bound now q o)
collect-IsGood bound deadline now f q (poll t first ∷ ts) o =
    if_cases (IsGood bound) (has_room q) _ (flushed now q)
      (λ room.
        select-IsGood bound deadline t first f q (λ g r. collect deadline t g r ts) o
          (ltb→lt _ _ room) (λ g w ow. collect-IsGood bound deadline t g w ts ow))
      (λ full. open-flushed bound now q o)

opening-IsGood :
    (bound now : ℕ) (r : Received) (q : EventQueue) (window again : EventQueue → Outcome)
    → IsConsistent q
    → q.config.max_pending ≤ bound
    → suc (length q.pending) ≤ bound
    → ((w : EventQueue) → IsOpen bound w → IsGood bound (window w))
    → IsGood bound (again q)
    → IsGood bound (opening now r q window again)
unfolding opening
opening-IsGood bound now ended q window again v c h k g = v
opening-IsGood bound now (event (rescan root)) q window again v c h k g =
    rescanned-IsGood bound root q
opening-IsGood bound now (event (fs e)) q window again v c h k g =
    k (merge now (fs e) q) (merge-IsOpen bound now e q v c h)
opening-IsGood bound now blocked q window again v c h k g = g

wait-IsGood :
    (bound : ℕ) (f : Recv) (q : EventQueue) (ts : List Turn)
    → IsConsistent q
    → q.config.max_pending ≤ bound
    → suc (length q.pending) ≤ bound
    → IsGood bound (wait f q ts)
unfolding wait
wait-IsGood bound f q [] v c h = v
wait-IsGood bound f q (backend e ∷ ts) v c h =
    wait-IsGood bound f (report e q) ts (unfold report in IsConsistent-stream q _ v)
      (unfold report in c) (unfold report in h)
wait-IsGood bound f q (stopped ∷ ts) v c h =
    wait-IsGood bound f (stop q) ts (unfold stop in IsConsistent-stream q _ v) (unfold stop in c)
      (unfold stop in h)
wait-IsGood bound f q (poll t first ∷ ts) v c h =
    let s = (poll_recv f q.stream).1 in
    let r : EventQueue = record q { stream = s } in
    opening-IsGood bound t (poll_recv f q.stream).0 r
      (λ w. collect (t + w.config.delay) t started w ts) (λ w. wait parked w ts)
      (IsConsistent-stream q s v) c h
      (λ w o. collect-IsGood bound (t + w.config.delay) t started w ts o)
      (wait-IsGood bound parked r ts (IsConsistent-stream q s v) c h)

-- From a consistent queue, whatever the backend reports, whenever the watcher stops, and whenever
-- and in whatever order of its branches the task is polled: the queue stays consistent; a batch of
-- changes that `next_batch` returns is not empty, names each path once, contains both ends of each
-- of its renames, and has no more paths than `bound`, which is at least `max_pending` and one more
-- than were pending before; and a batch leaves none pending.
pub next_batch-IsGood :
    (bound : ℕ) (q : EventQueue) (ts : List Turn)
    → IsConsistent q
    → q.config.max_pending ≤ bound
    → suc (length q.pending) ≤ bound
    → IsGood bound (next_batch q ts)
unfolding next_batch
next_batch-IsGood bound q ts v c h = wait-IsGood bound started q ts v c h
