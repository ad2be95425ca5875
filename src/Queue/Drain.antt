-- ===== src/Queue/Drain.antt =====
-- crates/treesync/src/queue/mod.rs: `drain` on shutdown, from its loop to what it returns.
use treesync.Prelude.{
  ℕ, zero, suc, ◌≤◌, ◌<◌, List, [], ◌∷◌, Bool, true, false, Bool-cases, Option, none, some, ◌≡◌,
  refl, ap, sym, ◌∙◌, inl, inr, length, arith, if◌then◌else◌, IsIn, ◌⊎◌, ◌↔◌,
}
use mathlib.Core.Path.{subst}
use treesync.Watcher.Dispatch.Send.{InQueue}
use treesync.Queue.Owed.{IsOwed, merge-IsOwed}
use treesync.FilePath.{FilePath}
use treesync.Watcher.Event.{FsEvent, WatchEvent, fs, rescan}
use treesync.Watcher.Scope
use treesync.Watcher.Stream.{
  purge, EventStream, Received, ended, blocked, try_recv, received, pop, purged,
}
use treesync.Watcher.Stream.Delivery.{recv-gap, recv-queue}
use treesync.Queue.{
  EventQueue, Batch, changes, walk, contains, insert, merge, flush, take_rescan, drained,
  drain_round, drain_loop, drain,
}
use treesync.Queue.Invariant.{IsConsistent}
use treesync.Queue.Merge.{merge-IsConsistent, merge-frame}
use treesync.Queue.Window.{IsGoodBatch, IsConsistent-stream}

abbrev HasRescan : List WatchEvent → Type 0
HasRescan [] = ⊥
HasRescan (fs e ∷ es) = HasRescan es
HasRescan (rescan root ∷ es) = Unit

-- A walk is owed, or a rescan is queued.
abbrev pub HasGap : EventQueue → Type 0
HasGap q = (q.stream.channel.signal.pending ≡ true) ⊎ HasRescan q.stream.channel.queued

-- What `drain` of the queue `q` comes to, for a path `p`.
abbrev pub IsDrained : FilePath → EventQueue → Option (Option Batch × EventQueue) → Type 0
IsDrained p q none = ⊥
IsDrained p q (some (none, r)) =
    (¬ IsOwed p q) × (r.pending ≡ []) × (r.stream.channel.queued ≡ []) × IsConsistent r
IsDrained p q (some (some (changes c), r)) =
    (IsOwed p q ↔ IsIn p c.paths)
    × IsGoodBatch c
    × (r.pending ≡ [])
    × (r.stream.channel.queued ≡ [])
    × IsConsistent r
IsDrained p q (some (some (walk root), r)) = HasGap q × (r.pending ≡ []) × IsConsistent r

-- The same for a queue that owes the same and has the same gaps.
IsDrained-same :
    (p : FilePath) (q w : EventQueue) (x : Option (Option Batch × EventQueue))
    → (IsOwed p q ↔ IsOwed p w)
    → (HasGap w → HasGap q)
    → IsDrained p w x
    → IsDrained p q x
IsDrained-same p q w none o g h = h
IsDrained-same p q w (some (none, r)) o g h = (λ i. h.0 (o.0 i), h.1, h.2, h.3)
IsDrained-same p q w (some (some (changes c), r)) o g h =
    ((λ k. h.0.0 (o.0 k), λ k. o.1 (h.0.1 k)), h.1, h.2, h.3, h.4)
IsDrained-same p q w (some (some (walk root), r)) o g (k, h, v) = (g k, h, v)

-- `drained` by what is pending.
abbrev drained_of : ℕ → EventQueue → List FilePath → Option Batch × EventQueue
drained_of now q [] = (none, q)
drained_of now q (p ∷ ps) = (some (changes (flush now q).0), (flush now q).1)

drained-of : (now : ℕ) (q : EventQueue) → drained now q ≡ drained_of now q q.pending
unfolding drained
drained-of now q = go q.pending
  where
    go :
        (ps : List FilePath)
        → (elim ps [ [] ↦ (none, q) | _ ∷ _ ↦ (some (changes (flush now q).0), (flush now q).1) ])
          ≡ drained_of now q ps
    go [] = refl
    go (p ∷ ps) = refl

drained-IsDrained :
    (p : FilePath) (now : ℕ) (q : EventQueue)
    → IsConsistent q
    → q.stream.channel.queued ≡ []
    → IsDrained p q (some (drained now q))
drained-IsDrained p now q v e = go q.pending refl
  where
    pending_only : IsOwed p q → IsIn p q.pending
    pending_only (inl i) = i
    pending_only (inr i) = absurd (subst (λ (es : List WatchEvent). InQueue es p) e i)

    go : (ps : List FilePath) → q.pending ≡ ps → IsDrained p q (some (drained now q))
    go [] h =
        subst (λ (x : Option Batch × EventQueue). IsDrained p q (some x))
          (sym (drained-of now q ∙ ap (drained_of now q) h))
          (λ o. subst (λ (ps : List FilePath). IsIn p ps) h (pending_only o), h, e, v)
    go (x ∷ ps) h =
        subst (λ (x : Option Batch × EventQueue). IsDrained p q (some x))
          (sym (drained-of now q ∙ ap (drained_of now q) h))
          (unfold flush in
            (
              (pending_only, λ i. inl i),
              ((λ (y : q.pending ≡ []). cc), v.distinct, v.renamed),
              refl,
              e,
              record { distinct = tt; renamed = tt; halves = tt; dated = refl },
            ))

try_recv-gap :
    (s : EventStream)
    → s.channel.signal.pending ≡ true
    → try_recv s ≡ (some (purged s).0, (purged s).1)
unfolding try_recv received
try_recv-gap s h = ap (λ (x : Received × EventStream). (received x.0, x.1)) (recv-gap s h)

try_recv-queue :
    (s : EventStream)
    → s.channel.signal.pending ≡ false
    → try_recv s ≡ (received (pop s s.channel.queued).0, (pop s s.channel.queued).1)
unfolding try_recv received
try_recv-queue s h = ap (λ (x : Received × EventStream). (received x.0, x.1)) (recv-queue s h)

drain_loop-step :
    (fuel now : ℕ) (q : EventQueue) (r : Option WatchEvent) (s : EventStream)
    → try_recv q.stream ≡ (r, s)
    → drain_loop (suc fuel) now q
      ≡ drain_round now r (record q { stream = s }) (λ w. drain_loop fuel now w)
unfolding drain_loop
drain_loop-step fuel now q r s h =
    ap
      (λ (x : Option WatchEvent × EventStream).
        drain_round now x.0 (record q { stream = x.1 }) (λ w. drain_loop fuel now w))
      h

rescan-IsDrained :
    (p root : FilePath) (q r : EventQueue)
    → HasGap q
    → IsDrained p q (some (some (take_rescan root r).0, (take_rescan root r).1))
unfolding take_rescan
rescan-IsDrained p root q r g =
    (g, refl, record { distinct = tt; renamed = tt; halves = tt; dated = refl })

insert-IsIn→ : (p x : FilePath) (ps : List FilePath) → IsIn p (insert x ps) → (p ≡ x) ⊎ IsIn p ps
unfolding insert
insert-IsIn→ p x ps = elim (Bool-cases (contains x ps)) [
  | inl e ↦ rw e (λ i. inr i)
  | inr e ↦ rw e (λ i. i)
]

-- A change that is taken off the queue and merged is still owed, and nothing else becomes so.
merge-same :
    (p : FilePath) (now : ℕ) (x : FsEvent) (es : List WatchEvent) (q r : EventQueue)
    → q.stream.channel.queued ≡ fs x ∷ es
    → r.pending ≡ q.pending
    → r.stream.channel.queued ≡ es
    → (IsOwed p q ↔ IsOwed p (merge now (fs x) r))
merge-same p now x es q r e same rest =
    let (grown, w, s, g) = merge-frame now x r in (forth, λ o. back (rw (grown, s) at o))
  where
    forth : IsOwed p q → IsOwed p (merge now (fs x) r)
    forth (inl i) = merge-IsOwed p now x r (inr (inl (rw same i)))
    forth (inr i) = elim (subst (λ (k : List WatchEvent). InQueue k p) e i) [
      | inl h ↦ merge-IsOwed p now x r (inl h)
      | inr h ↦ merge-IsOwed p now x r (inr (inr (rw rest h)))
    ]

    back : IsIn p (insert x.path r.pending) ⊎ InQueue r.stream.channel.queued p → IsOwed p q
    back (inr i) = inr (rw e (inr (rw rest at i)))
    back (inl i) = elim (insert-IsIn→ p x.path r.pending i) [
      | inl h ↦ inr (rw e (inl (sym h)))
      | inr h ↦ inl (rw same at h)
    ]

module _ (p : FilePath) (fuel now : ℕ)
    (more : (q : EventQueue)
      → IsConsistent q
      → length q.stream.channel.queued < fuel
      → IsDrained p q (drain_loop fuel now q)) where
  popped-IsDrained :
      (q : EventQueue) (es : List WatchEvent)
      → IsConsistent q
      → q.stream.channel.queued ≡ es
      → length es ≤ fuel
      → IsDrained p q (
          drain_round now
            (received (pop q.stream es).0)
            (record q { stream = (pop q.stream es).1 })
            (λ w. drain_loop fuel now w))
  unfolding pop drain_round received
  popped-IsDrained q [] v e h = quiet q.stream.alive
    where
      quiet :
          (b : Bool)
          → IsDrained p q (
              drain_round now
                (received (if b then blocked else ended))
                q
                (λ w. drain_loop fuel now w))
      quiet true = drained-IsDrained p now q v e
      quiet false = drained-IsDrained p now q v e
  popped-IsDrained q (rescan root ∷ es) v e h =
      rescan-IsDrained p root q (record q { stream = (pop q.stream (rescan root ∷ es)).1 })
        (inr (rw e tt))
  popped-IsDrained q (fs x ∷ es) v e h =
      let r : EventQueue = record q { stream = (pop q.stream (fs x ∷ es)).1 } in
      let w = merge now (fs x) r in
      let same_stream = (merge-frame now x r).2 in
      IsDrained-same p q w (drain_loop fuel now w) (merge-same p now x es q r e refl refl)
        (λ g. elim (rw same_stream at g) [ inl k ↦ inl k | inr k ↦ inr (rw e k) ])
        (more w (merge-IsConsistent now (fs x) r (IsConsistent-stream q _ v)) (rw same_stream h))

gap-IsDrained :
    (p : FilePath) (fuel now : ℕ) (q r : EventQueue) (s : EventStream)
    → HasGap q
    → IsDrained p q (drain_round now (some (purged s).0) r (λ w. drain_loop fuel now w))
unfolding drain_round purged
gap-IsDrained p fuel now q r s g =
    rescan-IsDrained p (Scope.take (purge s.channel.signal s.channel.queued) s.root).0 q r g

drain_loop-IsDrained :
    (p : FilePath) (fuel now : ℕ) (q : EventQueue)
    → IsConsistent q
    → length q.stream.channel.queued < fuel
    → IsDrained p q (drain_loop fuel now q)
drain_loop-IsDrained p zero now q v h = absurd (omega arith)
drain_loop-IsDrained p (suc fuel) now q v h = elim (Bool-cases q.stream.channel.signal.pending) [
  | inl g ↦
      rw (drain_loop-step fuel now q _ _ (try_recv-gap q.stream g))
        (gap-IsDrained p fuel now q (record q { stream = (purged q.stream).1 }) q.stream (inl g))
  | inr n ↦ rw (drain_loop-step fuel now q _ _ (try_recv-queue q.stream n)) (
      popped-IsDrained p fuel now (drain_loop-IsDrained p fuel now) q q.stream.channel.queued v refl
        (omega arith))
]

-- `drain` of a consistent queue always ends, and accounts for any path `p`. It returns no batch only
-- if `p` was neither pending nor queued; it returns a batch of changes that contains `p` exactly if
-- `p` was pending or queued, and that is not empty, names each path once and contains both ends of
-- each of its renames; in both cases nothing is pending or queued afterwards. It returns a walk only
-- if one was owed or a rescan was queued, and then nothing is pending afterwards.
pub drain-IsDrained :
    (p : FilePath) (now : ℕ) (q : EventQueue) → IsConsistent q → IsDrained p q (drain now q)
unfolding drain
drain-IsDrained p now q v =
    drain_loop-IsDrained p (suc (length q.stream.channel.queued)) now q v (omega arith)
