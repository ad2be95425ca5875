-- ===== src/Queue/Merge.antt =====
-- crates/treesync/src/queue/mod.rs: `merge`, and the invariant of the window.
use treesync.Prelude.{ℕ, List, Option, none, some, ◌≡◌, refl, All, IsIn, nat_eq, list_eq}
use treesync.FilePath.{FilePath, component_eq}
use treesync.Watcher.Event.{
  EventKind, create, modify, attrib, delete, moved_from, moved_to, FsEvent, WatchEvent, fs, rescan,
}
use treesync.Queue.{
  EventQueue, HalfMove, from, to, insert, half_at, pair_from, pair_to, correlate, correlate_tracked,
  merge, opened,
}
use treesync.Queue.Invariant.{
  HalfIn, half_path, IsConsistent, insert-IsIn, insert-IsDistinct, insert-IsDated, renames-insert,
  halves-insert, forget-HalfIn, half_at-IsIn, renames-append,
}

-- What `half_at` finds names a pending path.
abbrev FoundIn : List FilePath → Option HalfMove → Type 0
FoundIn ps none = Unit
FoundIn ps (some h) = IsIn (half_path h) ps

half_at-FoundIn :
    (ps : List FilePath) (cookie : ℕ) (hs : List (ℕ × HalfMove))
    → All (HalfIn ps) hs
    → FoundIn ps (half_at cookie hs)
half_at-FoundIn ps cookie hs k = go (half_at cookie hs) (λ h e. half_at-IsIn ps cookie hs h k e)
  where
    go :
        (o : Option HalfMove) → ((h : HalfMove) → o ≡ some h → IsIn (half_path h) ps) → FoundIn ps o
    go none f = tt
    go (some h) f = f h refl

pair_from-IsConsistent :
    (p : FilePath) (cookie : ℕ) (o : Option HalfMove) (q : EventQueue)
    → IsConsistent q
    → IsIn p q.pending
    → FoundIn q.pending o
    → IsConsistent (pair_from p cookie o q)
unfolding pair_from
pair_from-IsConsistent p cookie (some (to t)) q v i f = record {
  distinct = v.distinct;
  renamed = renames-append q.pending q.renames _ v.renamed (i, f);
  halves = forget-HalfIn q.pending cookie q.half_moves v.halves;
  dated = v.dated;
}
pair_from-IsConsistent p cookie (some (from t)) q v i f = record {
  distinct = v.distinct;
  renamed = v.renamed;
  halves = (i, forget-HalfIn q.pending cookie q.half_moves v.halves);
  dated = v.dated;
}
pair_from-IsConsistent p cookie none q v i f = record {
  distinct = v.distinct;
  renamed = v.renamed;
  halves = (i, forget-HalfIn q.pending cookie q.half_moves v.halves);
  dated = v.dated;
}

pair_to-IsConsistent :
    (p : FilePath) (cookie : ℕ) (o : Option HalfMove) (q : EventQueue)
    → IsConsistent q
    → IsIn p q.pending
    → FoundIn q.pending o
    → IsConsistent (pair_to p cookie o q)
unfolding pair_to
pair_to-IsConsistent p cookie (some (from s)) q v i f = record {
  distinct = v.distinct;
  renamed = renames-append q.pending q.renames _ v.renamed (f, i);
  halves = forget-HalfIn q.pending cookie q.half_moves v.halves;
  dated = v.dated;
}
pair_to-IsConsistent p cookie (some (to s)) q v i f = record {
  distinct = v.distinct;
  renamed = v.renamed;
  halves = (i, forget-HalfIn q.pending cookie q.half_moves v.halves);
  dated = v.dated;
}
pair_to-IsConsistent p cookie none q v i f = record {
  distinct = v.distinct;
  renamed = v.renamed;
  halves = (i, forget-HalfIn q.pending cookie q.half_moves v.halves);
  dated = v.dated;
}

correlate_tracked-IsConsistent :
    (k : EventKind) (p : FilePath) (t : Option ℕ) (q : EventQueue)
    → IsConsistent q
    → IsIn p q.pending
    → IsConsistent (correlate_tracked k p t q)
unfolding correlate_tracked correlate
correlate_tracked-IsConsistent moved_from p (some c) q v i =
    pair_from-IsConsistent p c _ q v i (half_at-FoundIn q.pending c q.half_moves v.halves)
correlate_tracked-IsConsistent moved_to p (some c) q v i =
    pair_to-IsConsistent p c _ q v i (half_at-FoundIn q.pending c q.half_moves v.halves)
correlate_tracked-IsConsistent create p (some c) q v i = v
correlate_tracked-IsConsistent modify p (some c) q v i = v
correlate_tracked-IsConsistent attrib p (some c) q v i = v
correlate_tracked-IsConsistent delete p (some c) q v i = v
correlate_tracked-IsConsistent _ p none q v i = v

-- `merge` keeps the invariant of the window: its paths are distinct, both ends of each matched
-- rename and the path of each waiting half are among them, and it is dated exactly when it has one.
pub merge-IsConsistent :
    (now : ℕ) (e : WatchEvent) (q : EventQueue) → IsConsistent q → IsConsistent (merge now e q)
unfolding merge
merge-IsConsistent now (rescan root) q v = v
merge-IsConsistent now (fs e) q v =
    correlate_tracked-IsConsistent e.kind e.path e.tracker _
      (record {
        distinct = insert-IsDistinct e.path q.pending v.distinct;
        renamed = renames-insert e.path q.pending q.renames v.renamed;
        halves = halves-insert e.path q.pending q.half_moves v.halves;
        dated = insert-IsDated e.path q.pending _;
      })
      (insert-IsIn e.path q.pending)

-- What a step of the window leaves alone.
pub record Frame (q r : EventQueue) : Type 0 where
  pub same_pending : r.pending ≡ q.pending
  pub same_window : r.window_opened ≡ q.window_opened
  pub same_stream : r.stream ≡ q.stream
  pub same_config : r.config ≡ q.config

Frame-refl : (q : EventQueue) → Frame q q
Frame-refl q = record {
  same_pending = refl;
  same_window = refl;
  same_stream = refl;
  same_config = refl;
}

pair_from-Frame :
    (p : FilePath) (c : ℕ) (o : Option HalfMove) (q : EventQueue) → Frame q (pair_from p c o q)
unfolding pair_from
pair_from-Frame p c (some (to t)) q = record {
  same_pending = refl;
  same_window = refl;
  same_stream = refl;
  same_config = refl;
}
pair_from-Frame p c (some (from t)) q = record {
  same_pending = refl;
  same_window = refl;
  same_stream = refl;
  same_config = refl;
}
pair_from-Frame p c none q = record {
  same_pending = refl;
  same_window = refl;
  same_stream = refl;
  same_config = refl;
}

pair_to-Frame :
    (p : FilePath) (c : ℕ) (o : Option HalfMove) (q : EventQueue) → Frame q (pair_to p c o q)
unfolding pair_to
pair_to-Frame p c (some (from t)) q = record {
  same_pending = refl;
  same_window = refl;
  same_stream = refl;
  same_config = refl;
}
pair_to-Frame p c (some (to t)) q = record {
  same_pending = refl;
  same_window = refl;
  same_stream = refl;
  same_config = refl;
}
pair_to-Frame p c none q = record {
  same_pending = refl;
  same_window = refl;
  same_stream = refl;
  same_config = refl;
}

correlate_tracked-Frame :
    (k : EventKind) (p : FilePath) (t : Option ℕ) (q : EventQueue)
    → Frame q (correlate_tracked k p t q)
unfolding correlate_tracked correlate
correlate_tracked-Frame moved_from p (some c) q = pair_from-Frame p c _ q
correlate_tracked-Frame moved_to p (some c) q = pair_to-Frame p c _ q
correlate_tracked-Frame create p (some c) q = Frame-refl q
correlate_tracked-Frame modify p (some c) q = Frame-refl q
correlate_tracked-Frame attrib p (some c) q = Frame-refl q
correlate_tracked-Frame delete p (some c) q = Frame-refl q
correlate_tracked-Frame _ p none q = Frame-refl q

-- What `merge` of a change does to the rest of the queue: the path joins the pending ones, the
-- window keeps the date of its first event, and the stream and the settings stay.
pub merge-frame :
    (now : ℕ) (e : FsEvent) (q : EventQueue)
    → ((merge now (fs e) q).pending ≡ insert e.path q.pending)
      × ((merge now (fs e) q).window_opened ≡ some (opened now q.window_opened))
      × ((merge now (fs e) q).stream ≡ q.stream)
      × ((merge now (fs e) q).config ≡ q.config)
unfolding merge
merge-frame now e q =
    let f = correlate_tracked-Frame e.kind e.path e.tracker (record q {
      window_opened = some (opened now q.window_opened);
      pending = insert e.path q.pending;
    }) in
    (f.same_pending, f.same_window, f.same_stream, f.same_config)
