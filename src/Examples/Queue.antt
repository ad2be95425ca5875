-- ===== src/Examples/Queue.antt =====
-- The theorems on the queue at concrete inputs.
use treesync.Prelude.{List, [], ◌∷◌, ◌≡◌, refl, none, some, false, inl, inr, arith, list_beq}
use treesync.FilePath.{FilePath, starts_with, component_beq, push, parent}
use treesync.Watcher.Event.{FsEvent, fs, moved_from}
use treesync.Watcher.Scope
use treesync.Watcher.Dispatch.{
  NotifyEvent, modified, metadata, dispatch, send_all, send_or_lose, translate, translate_kind,
  each_path, note_new_folders,
}
use treesync.Watcher.Stream
use treesync.Watcher.Stream.{EventStream, recv, poll_recv, pop, purged, purge, lose}
use treesync.Queue.{
  EventQueue, walk, merge, contains, insert, opened, correlate_tracked, take_rescan, drain,
  default_config,
}
use treesync.Queue.Wait.{
  Turn, backend, stopped, poll, recv_first, timer_first, returned, next_batch, wait, opening,
  collect, select, collected, report, rescanned,
}
use treesync.Queue.Invariant.{IsConsistent}
use treesync.Queue.Merge.{merge-IsConsistent}
use treesync.Queue.Window.{IsGood, next_batch-IsGood}
use treesync.Queue.Owed.{IsKept, next_batch-IsKept}
use treesync.Queue.Drain.{IsDrained, drain-IsDrained}
use treesync.Examples.Paths.{dir_a, file_x, file_y, file_b, quiet_stream, new_folder, changed}

-- An open window with a path in it, and the first half of a rename.
abbrev open_queue : EventQueue
open_queue = record {
  stream = quiet_stream;
  config = default_config;
  pending = file_b ∷ [];
  half_moves = [];
  renames = [];
  window_opened = some 5;
}

open_queue-IsConsistent : IsConsistent open_queue
open_queue-IsConsistent = record {
  distinct = unfold contains in (refl, tt);
  renamed = tt;
  halves = tt;
  dated = λ e. cc;
}

abbrev moved_away : FsEvent
moved_away = record { kind = moved_from; path = file_x; tracker = some 7 }

merge-IsConsistent_example : IsConsistent (merge 6 (fs moved_away) open_queue)
merge-IsConsistent_example = merge-IsConsistent 6 (fs moved_away) open_queue open_queue-IsConsistent

-- A directory is made while the first `recv` waits, the watcher stops, and the time runs out.
abbrev some_turns : List Turn
some_turns =
    poll 6 recv_first
    ∷ backend new_folder
    ∷ poll 7 timer_first
    ∷ stopped
    ∷ poll 1006 timer_first
    ∷ []

next_batch-IsGood_example : IsGood 10_000 (next_batch open_queue some_turns)
next_batch-IsGood_example =
    next_batch-IsGood 10_000 open_queue some_turns open_queue-IsConsistent (omega arith)
      (omega arith)

abbrev popped_stream : EventStream
popped_stream = record quiet_stream {
  channel = record quiet_stream.channel { queued = fs (changed file_b) ∷ [] };
}

abbrev early_turns : List Turn
early_turns = poll 900 recv_first ∷ stopped ∷ poll 1005 timer_first ∷ []

next_batch-IsKept_example : IsKept file_x (next_batch open_queue some_turns)
next_batch-IsKept_example = next_batch-IsKept file_x open_queue some_turns (inr (inl refl))

drain-IsDrained_example : IsDrained file_x open_queue (drain 6 open_queue)
drain-IsDrained_example = drain-IsDrained file_x 6 open_queue open_queue-IsConsistent

-- A channel with room for one event: /w/b changes and is taken, then /w/a/y changes and fills the
-- channel, so /w/a/x is lost and a walk of /w/a is owed.
abbrev small_stream : EventStream
small_stream = record quiet_stream {
  channel = record quiet_stream.channel { queued = fs (changed file_b) ∷ []; capacity = 1 };
}

abbrev small_queue : EventQueue
small_queue = record open_queue { stream = small_stream; pending = []; window_opened = none }

abbrev touched : FilePath → NotifyEvent
touched p = record { kind = modified metadata; paths = p ∷ []; tracker = none; need_rescan = false }

abbrev narrow_turns : List Turn
narrow_turns =
    poll 6 recv_first ∷ backend (touched file_y) ∷ backend (touched file_x) ∷ poll 7 recv_first ∷ []

-- The walk of /w/a is returned, and /w/b is neither in a batch nor in the queue any more.
narrow-forgets :
    next_batch small_queue narrow_turns
    ≡ returned (some (walk dir_a)) (record small_queue {
      stream = record small_stream {
        channel = record small_stream.channel { queued = []; signal = Scope.new };
      };
    })
unfolding next_batch wait opening collect select collected report dispatch send_all send_or_lose
    translate translate_kind note_new_folders merge insert correlate_tracked rescanned take_rescan
    poll_recv recv pop
narrow-forgets =
    unfold recv Stream.take_rescan purged purge lose Scope.take Scope.taken Scope.lost Scope.widen
      Scope.widen_scope Scope.lost_directory Scope.common_ancestor Scope.common_loop push parent
      starts_with component_beq list_beq each_path contains opened in
    refl
