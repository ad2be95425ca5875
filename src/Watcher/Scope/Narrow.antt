-- ===== src/Watcher/Scope/Narrow.antt =====
-- crates/treesync/src/watcher/scope.rs: how wide a walk is.
use treesync.Prelude.{List, [], ◌∷◌, true, ◌≡◌, arith, All}
use treesync.FilePath.{FilePath, starts_with}
use treesync.FilePath.Prefix.{starts_with_trans}
use treesync.Watcher.Scope.{
  Scope, clean, subtree, everything, RescanSignal, new, widen_scope, widen, lost_directory, lost,
  lost_under, taken, take,
}
use treesync.Watcher.Scope.Ancestor.{common_ancestor-greatest}
use treesync.Watcher.Scope.Coverage.{
  IsSoundScope, Loss, path, directory, unknown, suffer, suffer_all, IsWellFormedLoss,
  suffer-IsSound,
}

-- A directory `q` that contains every loss so far contains the scope.
abbrev LiesIn : Scope → FilePath → Type 0
LiesIn clean q = ⊥
LiesIn (subtree p) q = starts_with p q ≡ true
LiesIn everything q = ⊥

abbrev LossIn : FilePath → Loss → Type 0
LossIn q (path p) = starts_with (lost_directory p) q ≡ true
LossIn q (directory d) = starts_with d q ≡ true
LossIn q unknown = ⊥

widen_scope-LiesIn :
    (s : Scope) (d q : FilePath)
    → IsSoundScope s
    → LiesIn s q
    → starts_with d q ≡ true
    → LiesIn (widen_scope s d) q
unfolding widen_scope
widen_scope-LiesIn (subtree p) d q h k e = common_ancestor-greatest p d q h k e
widen_scope-LiesIn clean d q h k e = absurd k
widen_scope-LiesIn everything d q h k e = absurd k

suffer_all-LiesIn :
    (ls : List Loss) (s : RescanSignal) (q : FilePath)
    → IsSoundScope s.scope
    → All IsWellFormedLoss ls
    → All (LossIn q) ls
    → LiesIn s.scope q
    → LiesIn (suffer_all s ls).scope q
unfolding lost lost_under widen
suffer_all-LiesIn [] s q h w i k = k
suffer_all-LiesIn (path p ∷ ls) s q h (w, ws) (i, is) k =
    suffer_all-LiesIn ls (lost s p) q (suffer-IsSound s (path p) h w) ws is
      (widen_scope-LiesIn s.scope _ q h k i)
suffer_all-LiesIn (directory d ∷ ls) s q h (w, ws) (i, is) k =
    suffer_all-LiesIn ls (lost_under s d) q (suffer-IsSound s (directory d) h w) ws is
      (widen_scope-LiesIn s.scope d q h k i)
suffer_all-LiesIn (unknown ∷ ls) s q h w (i, is) k = absurd i

first-LiesIn : (l : Loss) (q : FilePath) → LossIn q l → LiesIn (suffer new l).scope q
unfolding lost lost_under widen widen_scope
first-LiesIn (path p) q i = i
first-LiesIn (directory d) q i = i
first-LiesIn unknown q i = absurd i

taken-LiesIn :
    (s : Scope) (root q : FilePath)
    → LiesIn s q
    → starts_with q root ≡ true
    → starts_with (taken s root) q ≡ true
unfolding taken
taken-LiesIn (subtree p) root q k h = ground (arith, starts_with_trans p q root)
taken-LiesIn clean root q k h = absurd k
taken-LiesIn everything root q k h = absurd k

-- The walk stays narrow: where at least one loss happened, all of known extent and in a directory
-- `q` at or under the root, the directory that `take` returns lies at or under `q`.
pub take-narrow :
    (l : Loss) (ls : List Loss) (root q : FilePath)
    → All IsWellFormedLoss (l ∷ ls)
    → All (LossIn q) (l ∷ ls)
    → starts_with q root ≡ true
    → starts_with (take (suffer_all new (l ∷ ls)) root).0 q ≡ true
unfolding take
take-narrow l ls root q (w, ws) (i, is) h =
    taken-LiesIn _ root q
      (suffer_all-LiesIn ls (suffer new l) q (suffer-IsSound new l tt w) ws is (first-LiesIn l q i))
      h
