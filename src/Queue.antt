-- ===== src/Queue.antt =====
-- crates/treesync/src/queue/mod.rs: the watcher's events, collected over a window into batches.
-- The hash set of paths is a list without repetition and the hash map of rename halves an
-- association list: nothing depends on their order. `Instant::now()` is an argument, in ticks.
pub mod Invariant
pub mod Merge
pub mod Wait
pub mod Window
pub mod Deadline
pub mod Drain
pub mod Owed
use treesync.Prelude.{
  ℕ, zero, suc, ◌+◌, List, [], ◌∷◌, ◌++◌, Bool, true, false, Option, none, some, ltb, leb, length,
  ◌==◌, nat_eq, list_eq, if◌then◌else◌, ◌||◌,
}
use treesync.FilePath.{FilePath, component_eq}
use treesync.Watcher.Event.{
  EventKind, create, modify, attrib, delete, moved_from, moved_to, FsEvent, WatchEvent, fs, rescan,
}
use treesync.Watcher.Dispatch.{NotifyEvent, dispatch}
use treesync.Watcher.Stream.{
  EventStream, Received, event, ended, blocked, Recv, started, parked, poll_recv, try_recv,
}

pub record QueueConfig : Type 0 where
  pub delay : ℕ
  pub max_pending : ℕ

-- `DEFAULT_DELAY` is one second (in milliseconds), `DEFAULT_MAX_PENDING` ten thousand paths.
abbrev pub default_config : QueueConfig
default_config = record { delay = 1000; max_pending = 10_000 }

pub record Rename : Type 0 where
  pub source : FilePath
  pub target : FilePath

pub record Changes : Type 0 where
  pub paths : List FilePath
  pub renames : List Rename
  pub opened_at : ℕ

pub data Batch : Type 0 where
  changes : Changes → Batch
  walk : FilePath → Batch

pub data HalfMove : Type 0 where
  from to : FilePath → HalfMove

pub record EventQueue : Type 0 where
  pub stream : EventStream
  pub config : QueueConfig
  pub pending : List FilePath
  pub half_moves : List (ℕ × HalfMove)
  pub renames : List Rename
  pub window_opened : Option ℕ

abbrev pub new : EventStream → QueueConfig → EventQueue
new stream config = record {
  stream = stream;
  config = config;
  pending = [];
  half_moves = [];
  renames = [];
  window_opened = none;
}

-- `HashSet::insert`, `HashMap::get` and `HashMap::remove`.
unfoldable pub contains : FilePath → List FilePath → Bool
contains p [] = false
contains p (q ∷ qs) = p == q || contains p qs

unfoldable pub insert : FilePath → List FilePath → List FilePath
unfolding contains
insert p ps = if contains p ps then ps else p ∷ ps

unfoldable pub half_at : ℕ → List (ℕ × HalfMove) → Option HalfMove
half_at cookie [] = none
half_at cookie ((c, h) ∷ hs) = if c == cookie then some h else half_at cookie hs

unfoldable pub forget : ℕ → List (ℕ × HalfMove) → List (ℕ × HalfMove)
forget cookie [] = []
forget cookie ((c, h) ∷ hs) = if c == cookie then forget cookie hs else (c, h) ∷ forget cookie hs

unfoldable pub pair_from : FilePath → ℕ → Option HalfMove → EventQueue → EventQueue
unfolding forget
pair_from path cookie (some (to target)) q = record q {
  half_moves = forget cookie q.half_moves;
  renames = q.renames ++ (record { source = path; target = target } ∷ []);
}
pair_from path cookie _ q = record q {
  half_moves = (cookie, from path) ∷ forget cookie q.half_moves;
}

unfoldable pub pair_to : FilePath → ℕ → Option HalfMove → EventQueue → EventQueue
unfolding forget
pair_to path cookie (some (from source)) q = record q {
  half_moves = forget cookie q.half_moves;
  renames = q.renames ++ (record { source = source; target = path } ∷ []);
}
pair_to path cookie _ q = record q { half_moves = (cookie, to path) ∷ forget cookie q.half_moves }

unfoldable pub correlate : EventKind → FilePath → ℕ → EventQueue → EventQueue
unfolding pair_from pair_to half_at
correlate moved_from path cookie q = pair_from path cookie (half_at cookie q.half_moves) q
correlate moved_to path cookie q = pair_to path cookie (half_at cookie q.half_moves) q
correlate create path cookie q = q
correlate modify path cookie q = q
correlate attrib path cookie q = q
correlate delete path cookie q = q

unfoldable pub correlate_tracked : EventKind → FilePath → Option ℕ → EventQueue → EventQueue
unfolding correlate
correlate_tracked kind path none q = q
correlate_tracked kind path (some cookie) q = correlate kind path cookie q

-- `get_or_insert_with(Instant::now)`
unfoldable pub opened : ℕ → Option ℕ → ℕ
opened now none = now
opened now (some t) = t

unfoldable pub merge : ℕ → WatchEvent → EventQueue → EventQueue
unfolding insert opened correlate_tracked
merge now (rescan root) q = q
merge now (fs e) q = correlate_tracked e.kind e.path e.tracker (record q {
  window_opened = some (opened now q.window_opened);
  pending = insert e.path q.pending;
})

-- The window's work as a batch, and the queue with an empty window.
unfoldable pub flush : ℕ → EventQueue → Changes × EventQueue
unfolding opened
flush now q = (
  record { paths = q.pending; renames = q.renames; opened_at = opened now q.window_opened },
  record q { pending = []; renames = []; window_opened = none; half_moves = [] },
)

unfoldable pub take_rescan : FilePath → EventQueue → Batch × EventQueue
take_rescan root q =
    (walk root, record q { pending = []; half_moves = []; renames = []; window_opened = none })

unfoldable pub drained : ℕ → EventQueue → Option Batch × EventQueue
unfolding flush
drained now q = elim q.pending [
  | [] ↦ (none, q)
  | _ ∷ _ ↦ (some (changes (flush now q).0), (flush now q).1)
]

-- One round of the loop of `drain`, by what `try_recv` gives; `more` is the rest of the loop.
unfoldable pub drain_round :
    ℕ
    → Option WatchEvent
    → EventQueue
    → (EventQueue → Option (Option Batch × EventQueue))
    → Option (Option Batch × EventQueue)
unfolding drained take_rescan merge
drain_round now (some (rescan root)) q more =
    some (some (take_rescan root q).0, (take_rescan root q).1)
drain_round now (some (fs e)) q more = more (merge now (fs e) q)
drain_round now none q more = some (drained now q)

-- The loop of `drain`; `none` means that the fuel ran out.
unfoldable pub drain_loop : ℕ → ℕ → EventQueue → Option (Option Batch × EventQueue)
unfolding drain_round try_recv
drain_loop zero now q = none
drain_loop (suc fuel) now q =
    let (r, after) = try_recv q.stream in
    drain_round now r (record q { stream = after }) (λ w. drain_loop fuel now w)

unfoldable pub drain : ℕ → EventQueue → Option (Option Batch × EventQueue)
unfolding drain_loop
drain now q = drain_loop (suc (length q.stream.channel.queued)) now q
