-- ===== src/Watcher/Dispatch/Accounts.antt =====
-- crates/treesync/src/watcher/mod.rs: what becomes of the paths that the backend reports.
use treesync.Prelude.{
  ℕ, List, [], ◌∷◌, true, false, Bool-cases, Option, ◌≡◌, refl, sym, ◌⊎◌, inl, inr, All, IsIn,
}
use treesync.FilePath.{FilePath, IsWellFormed}
use treesync.Watcher.Event.{EventKind, create, modify, attrib, delete, moved_from, moved_to}
use treesync.Watcher.Scope.{RescanSignal, lost_under, lost_everything}
use treesync.Watcher.Scope.Coverage.{
  Covers, IsSoundScope, suffer-IsSound, suffer-keeps, suffer-Covers, directory,
}
use treesync.Watcher.Dispatch.{
  NotifyKind, NotifyEvent, Channel, dispatch, translate, translate_kind, each_path, both_halves,
  note_folders, note_new_folders, created, folder, other_create, modified, name, from, to, both,
  other_mode, metadata, other_modify, any, access, other, remove,
}
use treesync.Watcher.Dispatch.Send.{
  Accounted, Names, WellFormedPath, send_all-Accounted, send_all-Covers,
}

each_path-WellFormed :
    (k : EventKind) (t : Option ℕ) (ps : List FilePath)
    → All IsWellFormed ps
    → All WellFormedPath (each_path k t ps)
unfolding each_path
each_path-WellFormed k t [] w = tt
each_path-WellFormed k t (p ∷ ps) (w, ws) = (w, each_path-WellFormed k t ps ws)

both_halves-WellFormed :
    (t : Option ℕ) (ps : List FilePath)
    → All IsWellFormed ps
    → All WellFormedPath (both_halves t ps)
unfolding both_halves
both_halves-WellFormed t [] w = tt
both_halves-WellFormed t (p ∷ []) w = tt
both_halves-WellFormed t (p ∷ q ∷ ps) (w, (v, ws)) = (w, (v, tt))

translate_kind-WellFormed :
    (k : NotifyKind) (t : Option ℕ) (ps : List FilePath)
    → All IsWellFormed ps
    → All WellFormedPath (translate_kind k t ps)
unfolding translate_kind
translate_kind-WellFormed (created k) t ps w = each_path-WellFormed create t ps w
translate_kind-WellFormed remove t ps w = each_path-WellFormed delete t ps w
translate_kind-WellFormed (modified (name from)) t ps w = each_path-WellFormed moved_from t ps w
translate_kind-WellFormed (modified (name to)) t ps w = each_path-WellFormed moved_to t ps w
translate_kind-WellFormed (modified (name both)) t ps w = both_halves-WellFormed t ps w
translate_kind-WellFormed (modified (name other_mode)) t ps w = each_path-WellFormed modify t ps w
translate_kind-WellFormed (modified metadata) t ps w = each_path-WellFormed attrib t ps w
translate_kind-WellFormed (modified other_modify) t ps w = each_path-WellFormed modify t ps w
translate_kind-WellFormed any t ps w = each_path-WellFormed modify t ps w
translate_kind-WellFormed access t ps w = tt
translate_kind-WellFormed other t ps w = tt

note_folders-IsSound :
    (s : RescanSignal) (ps : List FilePath)
    → IsSoundScope s.scope
    → All IsWellFormed ps
    → IsSoundScope (note_folders s ps).scope
unfolding note_folders
note_folders-IsSound s [] h w = h
note_folders-IsSound s (p ∷ ps) h (w, ws) =
    note_folders-IsSound (lost_under s p) ps (suffer-IsSound s (directory p) h w) ws

note_folders-keeps :
    (s : RescanSignal) (ps : List FilePath) (d : FilePath)
    → IsSoundScope s.scope
    → All IsWellFormed ps
    → Covers s d
    → Covers (note_folders s ps) d
unfolding note_folders
note_folders-keeps s [] d h w k = k
note_folders-keeps s (p ∷ ps) d h (w, ws) k =
    note_folders-keeps (lost_under s p) ps d (suffer-IsSound s (directory p) h w) ws
      (suffer-keeps s (directory p) d h k)

note_folders-Covers :
    (s : RescanSignal) (ps : List FilePath) (d : FilePath)
    → IsSoundScope s.scope
    → All IsWellFormed ps
    → IsIn d ps
    → Covers (note_folders s ps) d
unfolding note_folders
note_folders-Covers s [] d h w i = absurd i
note_folders-Covers s (p ∷ ps) d h (w, ws) (inl e) =
    note_folders-keeps (lost_under s p) ps d (suffer-IsSound s (directory p) h w) ws
      (suffer-Covers s (directory p) d h (sym e))
note_folders-Covers s (p ∷ ps) d h (w, ws) (inr i) =
    note_folders-Covers (lost_under s p) ps d (suffer-IsSound s (directory p) h w) ws i

note_new_folders-IsSound :
    (k : NotifyKind) (s : RescanSignal) (ps : List FilePath)
    → IsSoundScope s.scope
    → All IsWellFormed ps
    → IsSoundScope (note_new_folders k s ps).scope
unfolding note_new_folders
note_new_folders-IsSound (created folder) s ps h w = note_folders-IsSound s ps h w
note_new_folders-IsSound (created other_create) s ps h w = h
note_new_folders-IsSound _ s ps h w = h

note_new_folders-keeps :
    (k : NotifyKind) (s : RescanSignal) (ps : List FilePath) (d : FilePath)
    → IsSoundScope s.scope
    → All IsWellFormed ps
    → Covers s d
    → Covers (note_new_folders k s ps) d
unfolding note_new_folders
note_new_folders-keeps (created folder) s ps d h w c = note_folders-keeps s ps d h w c
note_new_folders-keeps (created other_create) s ps d h w c = c
note_new_folders-keeps _ s ps d h w c = c

-- Whatever the backend reports on well-formed paths to a consumer that is there, every path that
-- was accounted for before and every path that the translated events name is accounted for after:
-- an event for it is queued, or a walk is owed that covers its directory. A full queue included.
pub dispatch-accounts :
    (event : NotifyEvent) (c : Channel) (p : FilePath)
    → c.closed ≡ false
    → IsSoundScope c.signal.scope
    → All IsWellFormed event.paths
    → Accounted c p ⊎ Names (translate event) p
    → Accounted (dispatch event c) p
unfolding dispatch translate lost_everything
dispatch-accounts event c p o h w k = elim (Bool-cases event.need_rescan) [
  | inl r ↦ rw r (inr (refl, tt))
  | inr n ↦ rw n (
      send_all-Accounted (translate event)
        (record c { signal = note_new_folders event.kind c.signal event.paths }) p o
        (note_new_folders-IsSound event.kind c.signal event.paths h w)
        (translate_kind-WellFormed event.kind event.tracker event.paths w)
        (elim k [
          | inl (inl q) ↦ inl (inl q)
          | inl (inr v) ↦ inl (inr (note_new_folders-keeps event.kind c.signal event.paths _ h w v))
          | inr n ↦ inr n
        ]))
]

-- A backend event that a directory was created makes the walk cover the directory itself, and a
-- backend that lost events makes it cover every directory.
pub dispatch-Covers :
    (event : NotifyEvent) (c : Channel) (d : FilePath)
    → IsSoundScope c.signal.scope
    → All IsWellFormed event.paths
    → (event.need_rescan ≡ true) ⊎ ((event.kind ≡ created folder) × IsIn d event.paths)
    → Covers (dispatch event c).signal d
unfolding dispatch translate lost_everything
dispatch-Covers event c d h w k = elim (Bool-cases event.need_rescan) [
  | inl r ↦ rw r (refl, tt)
  | inr n ↦ rw n (
      send_all-Covers (translate event)
        (record c { signal = note_new_folders event.kind c.signal event.paths }) d
        (note_new_folders-IsSound event.kind c.signal event.paths h w)
        (translate_kind-WellFormed event.kind event.tracker event.paths w)
        (elim k [
          | inl r ↦ cc
          | inr (e, i) ↦ rw (e, note_new_folders) (note_folders-Covers c.signal event.paths d h w i)
        ]))
]
