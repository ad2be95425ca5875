-- ===== src/Watcher/Scope/Coverage.antt =====
-- crates/treesync/src/watcher/scope.rs: what a walk covers, given the losses before it.
use treesync.Prelude.{
  List, [], ◌∷◌, true, inl, inr, ◌≡◌, refl, arith, Option-cases, some, All, IsIn, ◌⊎◌, ap, sym,
}
use mathlib.Core.Option.{some-injective}
use mathlib.Core.Path.{subst}
use treesync.FilePath.{
  FilePath, starts_with, parent, IsInner, IsWellFormed, root_dir, cur_dir, parent_dir, normal,
}
use treesync.FilePath.Prefix.{starts_with_refl, starts_with_trans}
use treesync.Watcher.Scope.{
  Scope, clean, subtree, everything, RescanSignal, new, widen_scope, widen, lost_directory, lost,
  lost_under, lost_everything, taken, take, common_ancestor,
}
use treesync.Watcher.Scope.Ancestor.{
  common_ancestor-left, common_ancestor-right, common_ancestor-IsWellFormed,
}

abbrev pub ScopeCovers : Scope → FilePath → Type 0
ScopeCovers clean d = ⊥
ScopeCovers (subtree q) d = starts_with d q ≡ true
ScopeCovers everything d = Unit

-- A walk is owed, and it will look at the directory `d`.
abbrev pub Covers : RescanSignal → FilePath → Type 0
Covers s d = (s.pending ≡ true) × ScopeCovers s.scope d

abbrev pub IsSoundScope : Scope → Type 0
IsSoundScope (subtree q) = IsWellFormed q
IsSoundScope clean = Unit
IsSoundScope everything = Unit

parent-All-IsInner : (p d : FilePath) → All IsInner p → parent p ≡ some d → All IsInner d
unfolding parent
parent-All-IsInner [] d h e = cc
parent-All-IsInner (root_dir ∷ []) d h e = cc
parent-All-IsInner (cur_dir ∷ []) d h e = ground (arith)
parent-All-IsInner (parent_dir ∷ []) d h e = ground arith
parent-All-IsInner (normal n ∷ []) d h e = ground arith
parent-All-IsInner (c ∷ b ∷ p) d (i, is) e = elim (Option-cases (parent (b ∷ p))) [
  | inl q ↦ ground (arith, q)
  | inr (d', q) ↦
      subst (All IsInner) (some-injective (c ∷ d') d (rw q at e))
        (i, parent-All-IsInner (b ∷ p) d' is q)
]

parent-IsWellFormed : (p d : FilePath) → IsWellFormed p → parent p ≡ some d → IsWellFormed d
unfolding parent
parent-IsWellFormed [] d h e = cc
parent-IsWellFormed (root_dir ∷ []) d h e = cc
parent-IsWellFormed (cur_dir ∷ []) d h e = ground arith
parent-IsWellFormed (parent_dir ∷ []) d h e = ground arith
parent-IsWellFormed (normal n ∷ []) d h e = ground arith
parent-IsWellFormed (c ∷ b ∷ p) d h e = elim (Option-cases (parent (b ∷ p))) [
  | inl q ↦ ground (arith, q)
  | inr (d', q) ↦
      subst IsWellFormed (some-injective (c ∷ d') d (rw q at e)) (parent-All-IsInner (b ∷ p) d' h q)
]

pub lost_directory-IsWellFormed : (p : FilePath) → IsWellFormed p → IsWellFormed (lost_directory p)
unfolding lost_directory
lost_directory-IsWellFormed p h = elim (Option-cases (parent p)) [
  | inl q ↦ rw (q, lost_directory, IsWellFormed) h
  | inr (d, q) ↦ rw (q, lost_directory, IsWellFormed) (parent-IsWellFormed p d h q)
]

pub widen_scope-IsSound :
    (s : Scope) (d : FilePath) → IsSoundScope s → IsWellFormed d → IsSoundScope (widen_scope s d)
unfolding widen_scope
widen_scope-IsSound clean d h k = k
widen_scope-IsSound (subtree q) d h k = common_ancestor-IsWellFormed q d h
widen_scope-IsSound everything d h k = tt

pub widen_scope-covers :
    (s : Scope) (d : FilePath) → IsSoundScope s → ScopeCovers (widen_scope s d) d
unfolding widen_scope
widen_scope-covers clean d h = starts_with_refl d
widen_scope-covers (subtree q) d h = common_ancestor-right q d h
widen_scope-covers everything d h = tt

pub widen_scope-keeps :
    (s : Scope) (d e : FilePath)
    → IsSoundScope s
    → ScopeCovers s e
    → ScopeCovers (widen_scope s d) e
unfolding widen_scope
widen_scope-keeps clean d e h k = absurd k
widen_scope-keeps (subtree q) d e h k =
    starts_with_trans e q (common_ancestor q d) k (common_ancestor-left q d h)
widen_scope-keeps everything d e h k = tt

pub taken-root : (s : Scope) (root : FilePath) → starts_with (taken s root) root ≡ true
unfolding taken
taken-root (subtree q) root = ground (arith, starts_with_refl root)
taken-root clean root = starts_with_refl root
taken-root everything root = starts_with_refl root

pub taken-covers :
    (s : Scope) (root d : FilePath)
    → ScopeCovers s d
    → starts_with d root ≡ true
    → starts_with d (taken s root) ≡ true
unfolding taken
taken-covers (subtree q) root d h k = ground (arith)
taken-covers clean root d h k = absurd h
taken-covers everything root d h k = k

-- One call on the signal. `lost_under` is a directory whose contents may be unreported.
pub data Loss : Type 0 where
  path : FilePath → Loss
  directory : FilePath → Loss
  unknown : Loss

abbrev pub suffer : RescanSignal → Loss → RescanSignal
suffer s (path p) = lost s p
suffer s (directory d) = lost_under s d
suffer s unknown = lost_everything s

abbrev pub suffer_all : RescanSignal → List Loss → RescanSignal
suffer_all s [] = s
suffer_all s (l ∷ ls) = suffer_all (suffer s l) ls

-- What a loss puts in doubt: one directory, or every one where its extent is unknown.
abbrev pub Doubts : Loss → FilePath → Type 0
Doubts (path p) d = lost_directory p ≡ d
Doubts (directory e) d = e ≡ d
Doubts unknown d = Unit

abbrev pub AnyDoubts : List Loss → FilePath → Type 0
AnyDoubts [] d = ⊥
AnyDoubts (l ∷ ls) d = Doubts l d ⊎ AnyDoubts ls d

abbrev pub IsWellFormedLoss : Loss → Type 0
IsWellFormedLoss (path p) = IsWellFormed p
IsWellFormedLoss (directory d) = IsWellFormed d
IsWellFormedLoss unknown = Unit

pub suffer-IsSound :
    (s : RescanSignal) (l : Loss)
    → IsSoundScope s.scope
    → IsWellFormedLoss l
    → IsSoundScope (suffer s l).scope
unfolding lost lost_under lost_everything widen
suffer-IsSound s (path p) h k = widen_scope-IsSound s.scope _ h (lost_directory-IsWellFormed p k)
suffer-IsSound s (directory d) h k = widen_scope-IsSound s.scope d h k
suffer-IsSound s unknown h k = tt

pub suffer-keeps :
    (s : RescanSignal) (l : Loss) (d : FilePath)
    → IsSoundScope s.scope
    → Covers s d
    → Covers (suffer s l) d
unfolding lost lost_under lost_everything widen
suffer-keeps s (path p) d h (q, k) = (refl, widen_scope-keeps s.scope _ d h k)
suffer-keeps s (directory e) d h (q, k) = (refl, widen_scope-keeps s.scope e d h k)
suffer-keeps s unknown d h k = (refl, tt)

pub suffer-Covers :
    (s : RescanSignal) (l : Loss) (d : FilePath)
    → IsSoundScope s.scope
    → Doubts l d
    → Covers (suffer s l) d
unfolding lost lost_under lost_everything widen
suffer-Covers s (path p) d h e = (refl, subst (ScopeCovers _) e (widen_scope-covers s.scope _ h))
suffer-Covers s (directory c) d h e =
    (refl, subst (ScopeCovers _) e (widen_scope-covers s.scope c h))
suffer-Covers s unknown d h e = (refl, tt)

suffer_all-keeps :
    (ls : List Loss) (s : RescanSignal) (d : FilePath)
    → IsSoundScope s.scope
    → All IsWellFormedLoss ls
    → Covers s d
    → Covers (suffer_all s ls) d
suffer_all-keeps [] s d h w k = k
suffer_all-keeps (l ∷ ls) s d h (w, ws) k =
    suffer_all-keeps ls (suffer s l) d (suffer-IsSound s l h w) ws (suffer-keeps s l d h k)

suffer_all-Covers :
    (ls : List Loss) (s : RescanSignal) (d : FilePath)
    → IsSoundScope s.scope
    → All IsWellFormedLoss ls
    → AnyDoubts ls d
    → Covers (suffer_all s ls) d
suffer_all-Covers [] s d h w k = absurd k
suffer_all-Covers (l ∷ ls) s d h (w, ws) (inl k) =
    suffer_all-keeps ls (suffer s l) d (suffer-IsSound s l h w) ws (suffer-Covers s l d h k)
suffer_all-Covers (l ∷ ls) s d h (w, ws) (inr k) =
    suffer_all-Covers ls (suffer s l) d (suffer-IsSound s l h w) ws k

suffer_all-everything :
    (ls : List Loss) (s : RescanSignal)
    → s.scope ≡ everything
    → (suffer_all s ls).scope ≡ everything
unfolding lost lost_under lost_everything widen widen_scope
suffer_all-everything [] s h = h
suffer_all-everything (path p ∷ ls) s h = suffer_all-everything ls _ (rw h)
suffer_all-everything (directory d ∷ ls) s h = suffer_all-everything ls _ (rw h)
suffer_all-everything (unknown ∷ ls) s h = suffer_all-everything ls _ refl

suffer_all-unknown :
    (ls : List Loss) (s : RescanSignal) → IsIn unknown ls → (suffer_all s ls).scope ≡ everything
unfolding lost_everything
suffer_all-unknown [] s h = absurd h
suffer_all-unknown (l ∷ ls) s (inl e) =
    suffer_all-everything ls (suffer s l) (ap (λ (x : Loss). (suffer s x).scope) (sym e))
suffer_all-unknown (l ∷ ls) s (inr h) = suffer_all-unknown ls (suffer s l) h

-- After any sequence of losses on well-formed paths, the directory that `take` returns lies at or
-- under the watch root and contains any directory under the root that one of the losses put in
-- doubt, where a loss of unknown extent puts every directory in doubt; and the signal is as new.
pub take-covers :
    (ls : List Loss) (root d : FilePath)
    → All IsWellFormedLoss ls
    → AnyDoubts ls d
    → starts_with d root ≡ true
    → (starts_with (take (suffer_all new ls) root).0 root ≡ true)
      × (starts_with d (take (suffer_all new ls) root).0 ≡ true)
      × ((take (suffer_all new ls) root).1 ≡ new)
unfolding take
take-covers ls root d w k h = (
  taken-root (suffer_all new ls).scope root,
  taken-covers (suffer_all new ls).scope root d (suffer_all-Covers ls new d tt w k).1 h,
  refl,
)

-- A loss of unknown extent, among any others, makes `take` return the watch root.
take-unknown :
    (ls : List Loss) (root : FilePath) → IsIn unknown ls → (take (suffer_all new ls) root).0 ≡ root
unfolding take taken
take-unknown ls root u = ap (λ (x : Scope). taken x root) (suffer_all-unknown ls new u)
