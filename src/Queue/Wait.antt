-- ===== src/Queue/Wait.antt =====
-- crates/treesync/src/queue/mod.rs: `next_batch`.
-- An `await` is a list of turns: what the backend reports, and when the task is polled, in an order
-- that the environment chooses. A future that is not ready is kept and polled again.
use treesync.Prelude.{
  ℕ, ◌+◌, List, [], ◌∷◌, false, Option, none, some, ltb, leb, length, nat_eq, list_eq,
  if◌then◌else◌,
}
use treesync.FilePath.{FilePath}
use treesync.Watcher.Event.{fs, rescan}
use treesync.Watcher.Dispatch.{NotifyEvent, dispatch}
use treesync.Watcher.Stream.{Received, event, ended, blocked, Recv, started, parked, poll_recv}
use treesync.Queue.{EventQueue, Batch, changes, merge, flush, take_rescan}

-- The branch of a `select!` that is tried first, which `tokio` picks at random.
pub data First : Type 0 where
  timer_first recv_first : First

-- What happens while the task waits: a backend event is dispatched, the watcher is dropped, or the
-- task is polled at a time.
pub data Turn : Type 0 where
  backend : NotifyEvent → Turn
  stopped : Turn
  poll : (now : ℕ) → First → Turn

-- `waiting`: the turns are used up and the call has not returned.
pub data Outcome : Type 0 where
  returned : Option Batch → EventQueue → Outcome
  waiting : EventQueue → Outcome

unfoldable pub report : NotifyEvent → EventQueue → EventQueue
unfolding dispatch
report e q = record q { stream = record q.stream { channel = dispatch e q.stream.channel } }

unfoldable pub stop : EventQueue → EventQueue
stop q = record q { stream = record q.stream { alive = false } }

unfoldable pub flushed : ℕ → EventQueue → Outcome
unfolding flush
flushed now q = let (c, after) = flush now q in returned (some (changes c)) after

unfoldable pub rescanned : FilePath → EventQueue → Outcome
unfolding take_rescan
rescanned root q = let (b, after) = take_rescan root q in returned (some b) after

-- The branch of `recv`. Where it is not ready, the branch of the timer is looked at, and then the
-- same future waits on. `more` is the loop from the future and the queue that result.
unfoldable pub collected : ℕ → ℕ → Received → EventQueue → (Recv → EventQueue → Outcome) → Outcome
unfolding flushed rescanned merge
collected deadline now ended q more = flushed now q
collected deadline now (event (rescan root)) q more = rescanned root q
collected deadline now (event (fs e)) q more = more started (merge now (fs e) q)
collected deadline now blocked q more =
    let rest = more parked q in if leb deadline now then flushed now q else rest

-- One poll of the `select!`.
unfoldable pub select : ℕ → ℕ → First → Recv → EventQueue → (Recv → EventQueue → Outcome) → Outcome
unfolding collected poll_recv
select deadline now recv_first future q more =
    let (r, after) = poll_recv future q.stream in
    collected deadline now r (record q { stream = after }) more
select deadline now timer_first future q more =
    let (r, after) = poll_recv future q.stream in
    let rest = collected deadline now r (record q { stream = after }) more in
    if leb deadline now then flushed now q else rest

-- The `while` of `next_batch` with its deadline, at a time and with the future of its `recv`.
unfoldable pub collect : ℕ → ℕ → Recv → EventQueue → List Turn → Outcome
unfolding select report stop
collect deadline now future q [] =
    if ltb (length q.pending) q.config.max_pending then waiting q else flushed now q
collect deadline now future q (backend e ∷ ts) =
    let more = collect deadline now future (report e q) ts in
    if ltb (length q.pending) q.config.max_pending then more else flushed now q
collect deadline now future q (stopped ∷ ts) =
    let more = collect deadline now future (stop q) ts in
    if ltb (length q.pending) q.config.max_pending then more else flushed now q
collect deadline now future q (poll t first ∷ ts) =
    let more = λ (f : Recv) (r : EventQueue). collect deadline t f r ts in
    let next = select deadline t first future q more in
    if ltb (length q.pending) q.config.max_pending then next else flushed now q

-- The first `recv`, with no window open and no timer running.
unfoldable pub opening :
    ℕ → Received → EventQueue → (EventQueue → Outcome) → (EventQueue → Outcome) → Outcome
unfolding rescanned merge
opening now ended q window again = returned none q
opening now (event (rescan root)) q window again = rescanned root q
opening now (event (fs e)) q window again = window (merge now (fs e) q)
opening now blocked q window again = again q

-- `next_batch`, with the future of its first `recv`.
unfoldable pub wait : Recv → EventQueue → List Turn → Outcome
unfolding opening collect poll_recv report stop
wait future q [] = waiting q
wait future q (backend e ∷ ts) = wait future (report e q) ts
wait future q (stopped ∷ ts) = wait future (stop q) ts
wait future q (poll t first ∷ ts) =
    let (r, after) = poll_recv future q.stream in
    opening t r (record q { stream = after }) (λ w. collect (t + w.config.delay) t started w ts)
      (λ w. wait parked w ts)

unfoldable pub next_batch : EventQueue → List Turn → Outcome
unfolding wait
next_batch q ts = wait started q ts
