-- ===== src/Watcher/Dispatch/Send.antt =====
-- crates/treesync/src/watcher/mod.rs: one attempt to send, and the loop of `dispatch`.
use treesync.Prelude.{
  List, [], ◌∷◌, ◌++◌, true, false, Bool-cases, ◌≡◌, refl, ◌∙◌, ◌⊎◌, inl, inr, All, arith, ltb,
  length,
}
use mathlib.Core.Path.{subst}
use treesync.FilePath.{FilePath, IsWellFormed}
use treesync.Watcher.Event.{FsEvent, WatchEvent, fs, rescan}
use treesync.Watcher.Scope.{lost_directory}
use treesync.Watcher.Scope.Coverage.{
  Covers, IsSoundScope, suffer-IsSound, suffer-keeps, suffer-Covers, path,
}
use treesync.Watcher.Dispatch.{Channel, send_or_lose, send_all}

abbrev pub Holds : WatchEvent → FilePath → Type 0
Holds (fs e) p = e.path ≡ p
Holds (rescan root) p = ⊥

abbrev pub InQueue : List WatchEvent → FilePath → Type 0
InQueue [] p = ⊥
InQueue (e ∷ es) p = Holds e p ⊎ InQueue es p

-- An event for `p` is queued, or a walk is owed that will look at its directory.
abbrev pub Accounted : Channel → FilePath → Type 0
Accounted c p = InQueue c.queued p ⊎ Covers c.signal (lost_directory p)

abbrev pub Names : List FsEvent → FilePath → Type 0
Names [] p = ⊥
Names (e ∷ es) p = (e.path ≡ p) ⊎ Names es p

pub InQueue-append_left :
    (es gs : List WatchEvent) (p : FilePath) → InQueue es p → InQueue (es ++ gs) p
InQueue-append_left [] gs p h = absurd h
InQueue-append_left (e ∷ es) gs p (inl h) = inl h
InQueue-append_left (e ∷ es) gs p (inr h) = inr (InQueue-append_left es gs p h)

InQueue-append_right :
    (es gs : List WatchEvent) (p : FilePath) → InQueue gs p → InQueue (es ++ gs) p
InQueue-append_right [] gs p h = h
InQueue-append_right (e ∷ es) gs p h = inr (InQueue-append_right es gs p h)

pub send_or_lose-Accounted :
    (c : Channel) (e : FsEvent) → IsSoundScope c.signal.scope → Accounted (send_or_lose c e) e.path
unfolding send_or_lose
send_or_lose-Accounted c e h = elim (Bool-cases (ltb (length c.queued) c.capacity)) [
  | inl room ↦ rw room (inl (InQueue-append_right c.queued (fs e ∷ []) e.path (inl refl)))
  | inr full ↦ rw full (inr (suffer-Covers c.signal (path e.path) _ h refl))
]

pub send_or_lose-keeps :
    (c : Channel) (e : FsEvent) (p : FilePath)
    → IsSoundScope c.signal.scope
    → Accounted c p
    → Accounted (send_or_lose c e) p
unfolding send_or_lose
send_or_lose-keeps c e p h a = elim (Bool-cases (ltb (length c.queued) c.capacity)) [
  | inl room ↦
      rw room
        (elim a [ inl q ↦ inl (InQueue-append_left c.queued (fs e ∷ []) p q) | inr k ↦ inr k ])
  | inr full ↦
      rw full (elim a [ inl q ↦ inl q | inr k ↦ inr (suffer-keeps c.signal (path e.path) _ h k) ])
]

pub send_or_lose-IsSound :
    (c : Channel) (e : FsEvent)
    → IsSoundScope c.signal.scope
    → IsWellFormed e.path
    → IsSoundScope (send_or_lose c e).signal.scope
unfolding send_or_lose
send_or_lose-IsSound c e h w = elim (Bool-cases (ltb (length c.queued) c.capacity)) [
  | inl room ↦ rw room h
  | inr full ↦ rw full (suffer-IsSound c.signal (path e.path) h w)
]

pub send_or_lose-closed : (c : Channel) (e : FsEvent) → (send_or_lose c e).closed ≡ c.closed
unfolding send_or_lose
send_or_lose-closed c e = ground arith

abbrev pub WellFormedPath : FsEvent → Type 0
WellFormedPath e = IsWellFormed e.path

pub send_all-cons :
    (c : Channel) (e : FsEvent) (es : List FsEvent)
    → c.closed ≡ false
    → send_all c (e ∷ es) ≡ send_all (send_or_lose c e) es
unfolding send_all
send_all-cons c e es o = ground arith

pub send_all-nil : (c : Channel) → send_all c [] ≡ c
unfolding send_all
send_all-nil c = refl

pub send_all-Accounted :
    (es : List FsEvent) (c : Channel) (p : FilePath)
    → c.closed ≡ false
    → IsSoundScope c.signal.scope
    → All WellFormedPath es
    → Accounted c p ⊎ Names es p
    → Accounted (send_all c es) p
send_all-Accounted [] c p o h w (inl a) = rw send_all-nil a
send_all-Accounted [] c p o h w (inr n) = absurd n
send_all-Accounted (e ∷ es) c p o h (w, ws) k = rw (send_all-cons c e es o) (
    send_all-Accounted es (send_or_lose c e) p (send_or_lose-closed c e ∙ o)
      (send_or_lose-IsSound c e h w) ws (step k))
  where
    step : Accounted c p ⊎ (e.path ≡ p) ⊎ Names es p → Accounted (send_or_lose c e) p ⊎ Names es p
    step (inl a) = inl (send_or_lose-keeps c e p h a)
    step (inr (inl q)) = inl (subst (Accounted (send_or_lose c e)) q (send_or_lose-Accounted c e h))
    step (inr (inr n)) = inr n

pub send_or_lose-Covers :
    (c : Channel) (e : FsEvent) (d : FilePath)
    → IsSoundScope c.signal.scope
    → Covers c.signal d
    → Covers (send_or_lose c e).signal d
unfolding send_or_lose
send_or_lose-Covers c e d h k = elim (Bool-cases (ltb (length c.queued) c.capacity)) [
  | inl room ↦ rw room k
  | inr full ↦ rw full (suffer-keeps c.signal (path e.path) d h k)
]

pub send_all-closed : (c : Channel) (es : List FsEvent) → c.closed ≡ true → send_all c es ≡ c
unfolding send_all
send_all-closed c [] h = refl
send_all-closed c (e ∷ es) h = ground arith

pub send_all-Covers :
    (es : List FsEvent) (c : Channel) (d : FilePath)
    → IsSoundScope c.signal.scope
    → All WellFormedPath es
    → Covers c.signal d
    → Covers (send_all c es).signal d
send_all-Covers [] c d h w k = rw send_all-nil k
send_all-Covers (e ∷ es) c d h (w, ws) k = elim (Bool-cases c.closed) [
  | inl shut ↦ rw (send_all-closed c (e ∷ es) shut) k
  | inr o ↦
      rw (send_all-cons c e es o)
        (send_all-Covers es (send_or_lose c e) d (send_or_lose-IsSound c e h w) ws kept)
]
  where
    kept : Covers (send_or_lose c e).signal d
    kept = send_or_lose-Covers c e d h k
