-- ===== src/Watcher/Dispatch.antt =====
-- crates/treesync/src/watcher/mod.rs: `translate` and `dispatch`, which run on the backend's thread.
-- Of the `notify` crate's event the model has what the code reads: the kinds that it tells apart,
-- the paths, the cookie and the flag that asks for a rescan.
pub mod Send
pub mod Accounts
use treesync.Prelude.{
  ℕ, ◌+◌, List, [], ◌∷◌, ◌++◌, Bool, true, false, Option, none, some, map, ltb, length,
  if◌then◌else◌,
}
use treesync.FilePath.{FilePath}
use treesync.Watcher.Event.{
  EventKind, create, modify, attrib, delete, moved_from, moved_to, FsEvent, WatchEvent, fs,
}
use treesync.Watcher.Scope.{RescanSignal, lost, lost_under, lost_everything}

pub data CreateKind : Type 0 where
  folder other_create : CreateKind

pub data RenameMode : Type 0 where
  from to both other_mode : RenameMode

pub data ModifyKind : Type 0 where
  name : RenameMode → ModifyKind
  metadata : ModifyKind
  other_modify : ModifyKind

-- `notify::EventKind`
pub data NotifyKind : Type 0 where
  any access other remove : NotifyKind
  created : CreateKind → NotifyKind
  modified : ModifyKind → NotifyKind

-- `notify::Event`
pub record NotifyEvent : Type 0 where
  pub kind : NotifyKind
  pub paths : List FilePath
  pub tracker : Option ℕ
  pub need_rescan : Bool

-- The events of one kind, one for each path.
unfoldable pub each_path : EventKind → Option ℕ → List FilePath → List FsEvent
each_path kind tracker [] = []
each_path kind tracker (p ∷ ps) =
    record { kind = kind; path = p; tracker = tracker } ∷ each_path kind tracker ps

-- A rename reported as one event carries `[from, to]`.
unfoldable pub both_halves : Option ℕ → List FilePath → List FsEvent
both_halves tracker (source ∷ target ∷ rest) =
    record { kind = moved_from; path = source; tracker = tracker }
    ∷ record { kind = moved_to; path = target; tracker = tracker }
    ∷ []
both_halves tracker _ = []

unfoldable pub translate_kind : NotifyKind → Option ℕ → List FilePath → List FsEvent
unfolding each_path both_halves
translate_kind (created k) t ps = each_path create t ps
translate_kind remove t ps = each_path delete t ps
translate_kind (modified (name from)) t ps = each_path moved_from t ps
translate_kind (modified (name to)) t ps = each_path moved_to t ps
translate_kind (modified (name both)) t ps = both_halves t ps
translate_kind (modified (name other_mode)) t ps = each_path modify t ps
translate_kind (modified metadata) t ps = each_path attrib t ps
translate_kind (modified other_modify) t ps = each_path modify t ps
translate_kind any t ps = each_path modify t ps
translate_kind access t ps = []
translate_kind other t ps = []

unfoldable pub translate : NotifyEvent → List FsEvent
unfolding translate_kind
translate event = translate_kind event.kind event.tracker event.paths

-- The bounded channel between the backend and the consumer, and the signal beside it.
-- `closed` says that the consumer has dropped its end.
pub record Channel : Type 0 where
  pub queued : List WatchEvent
  pub capacity : ℕ
  pub closed : Bool
  pub signal : RescanSignal

unfoldable pub note_folders : RescanSignal → List FilePath → RescanSignal
note_folders signal [] = signal
note_folders signal (p ∷ ps) = note_folders (lost_under signal p) ps

unfoldable pub note_new_folders : NotifyKind → RescanSignal → List FilePath → RescanSignal
unfolding note_folders
note_new_folders (created folder) signal paths = note_folders signal paths
note_new_folders _ signal paths = signal

-- `try_send`, and what the loop does with its answer, for a consumer that is there.
unfoldable pub send_or_lose : Channel → FsEvent → Channel
send_or_lose c e =
    if ltb (length c.queued) c.capacity
    then record c { queued = c.queued ++ (fs e ∷ []) }
    else record c { signal = lost c.signal e.path }

unfoldable pub send_all : Channel → List FsEvent → Channel
unfolding send_or_lose
send_all c [] = c
send_all c (e ∷ es) = let sent = send_all (send_or_lose c e) es in if c.closed then c else sent

unfoldable pub dispatch : NotifyEvent → Channel → Channel
unfolding translate note_new_folders send_all
dispatch event c =
    if event.need_rescan
    then record c { signal = lost_everything c.signal }
    else send_all (record c { signal = note_new_folders event.kind c.signal event.paths })
        (translate event)
