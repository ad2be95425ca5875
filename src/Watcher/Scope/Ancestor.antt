-- ===== src/Watcher/Scope/Ancestor.antt =====
-- crates/treesync/src/watcher/scope.rs: `common_ancestor` in the order of prefixes.
use treesync.Prelude.{
  ◌&&◌, Bool, if◌then◌else◌, [], ◌∷◌, ◌++◌, true, false, ◌≡◌, refl, arith, ◌==◌, beq→eq, beq_refl,
  All, append-nil, append_assoc,
}
use treesync.FilePath.{
  FilePath, Component, component_eq, push, starts_with, IsInner, up, name, root_dir, cur_dir,
  parent_dir, normal, IsWellFormed,
}
use treesync.FilePath.Prefix.{starts_with_trans}
use treesync.Watcher.Scope.{common_loop, common_ancestor}

push-IsInner :
    (c : Component) (x : Component) (p : FilePath)
    → IsInner x
    → push (c ∷ p) x ≡ (c ∷ p) ++ (x ∷ [])
unfolding push
push-IsInner c x p up = refl
push-IsInner c x p name = refl

-- The longest common prefix, without an accumulator.
shared_prefix : FilePath → FilePath → FilePath
shared_prefix (x ∷ a) (y ∷ b) = if x == y then x ∷ shared_prefix a b else []
shared_prefix _ _ = []

common_loop-shared_prefix :
    (c : Component) (shared a b : FilePath)
    → All IsInner a
    → common_loop (c ∷ shared) a b ≡ (c ∷ shared) ++ shared_prefix a b
unfolding common_loop shared_prefix
common_loop-shared_prefix c shared (x ∷ a) (y ∷ b) (i, is) = ground (
  arith,
  push-IsInner c x shared i,
  common_loop-shared_prefix c (shared ++ x ∷ []) a b is,
  append_assoc shared (x ∷ []) (shared_prefix a b),
  append-nil shared,
)
common_loop-shared_prefix c shared [] b h = rw append-nil
common_loop-shared_prefix c shared (x ∷ a) [] h = rw append-nil

push-nil : (x : Component) → push [] x ≡ x ∷ []
unfolding push
push-nil root_dir = refl
push-nil cur_dir = refl
push-nil parent_dir = refl
push-nil (normal n) = refl

common_ancestor-shared_prefix :
    (a b : FilePath) → IsWellFormed a → common_ancestor a b ≡ shared_prefix a b
unfolding common_ancestor common_loop shared_prefix
common_ancestor-shared_prefix [] b h = refl
common_ancestor-shared_prefix (x ∷ a) [] h = refl
common_ancestor-shared_prefix (x ∷ a) (y ∷ b) h =
    ground (arith, push-nil x, common_loop-shared_prefix x [] a b h)

shared_prefix-lower_left : (a b : FilePath) → starts_with a (shared_prefix a b) ≡ true
unfolding shared_prefix starts_with
shared_prefix-lower_left [] b = refl
shared_prefix-lower_left (x ∷ a) [] = refl
shared_prefix-lower_left (x ∷ a) (y ∷ b) = ground (arith, beq_refl x, shared_prefix-lower_left a b)

shared_prefix-lower_right : (a b : FilePath) → starts_with b (shared_prefix a b) ≡ true
unfolding shared_prefix starts_with
shared_prefix-lower_right [] b = refl
shared_prefix-lower_right (x ∷ a) [] = refl
shared_prefix-lower_right (x ∷ a) (y ∷ b) =
    ground (arith, beq_refl x, beq→eq x y, shared_prefix-lower_right a b)

shared_prefix-greatest :
    (a b p : FilePath)
    → starts_with a p ≡ true
    → starts_with b p ≡ true
    → starts_with (shared_prefix a b) p ≡ true
unfolding shared_prefix starts_with
shared_prefix-greatest a b [] h k = refl
shared_prefix-greatest [] b (z ∷ p) h k = cc
shared_prefix-greatest (x ∷ a) [] (z ∷ p) h k = cc
shared_prefix-greatest (x ∷ a) (y ∷ b) (z ∷ p) h k =
    ground (arith, beq→eq x z, beq→eq y z, beq_refl x, beq_refl z, shared_prefix-greatest a b p)

shared_prefix-All-IsInner : (a b : FilePath) → All IsInner a → All IsInner (shared_prefix a b)
unfolding shared_prefix
shared_prefix-All-IsInner [] b h = tt
shared_prefix-All-IsInner (x ∷ a) [] h = tt
shared_prefix-All-IsInner (x ∷ a) (y ∷ b) (i, is) = ground (arith, shared_prefix-All-IsInner a b is)

-- The common ancestor of a well-formed path and any other is well formed.
pub common_ancestor-IsWellFormed :
    (a b : FilePath) → IsWellFormed a → IsWellFormed (common_ancestor a b)
unfolding common_ancestor common_loop shared_prefix
common_ancestor-IsWellFormed [] b h = tt
common_ancestor-IsWellFormed (x ∷ a) [] h = tt
common_ancestor-IsWellFormed (x ∷ a) (y ∷ b) h =
    rw (common_ancestor-shared_prefix (x ∷ a) (y ∷ b) h) (wf (x == y))
  where
    wf : (t : Bool) → IsWellFormed (if t then x ∷ shared_prefix a b else [])
    wf true = shared_prefix-All-IsInner a b h
    wf false = tt

pub common_ancestor-left :
    (a b : FilePath) → IsWellFormed a → starts_with a (common_ancestor a b) ≡ true
common_ancestor-left a b h = rw (common_ancestor-shared_prefix a b h) (shared_prefix-lower_left a b)

pub common_ancestor-right :
    (a b : FilePath) → IsWellFormed a → starts_with b (common_ancestor a b) ≡ true
common_ancestor-right a b h =
    rw (common_ancestor-shared_prefix a b h) (shared_prefix-lower_right a b)

pub common_ancestor-greatest :
    (a b p : FilePath)
    → IsWellFormed a
    → starts_with a p ≡ true
    → starts_with b p ≡ true
    → starts_with (common_ancestor a b) p ≡ true
common_ancestor-greatest a b p h k l =
    rw (common_ancestor-shared_prefix a b h) (shared_prefix-greatest a b p k l)

-- `common_ancestor a b` is the deepest directory that contains both paths: it contains both, and
-- a directory `p` contains it exactly if it contains both. `a` is well formed (`/` and `.` stand
-- only in front).
pub common_ancestor-deepest :
    (a b p : FilePath)
    → IsWellFormed a
    → (starts_with a (common_ancestor a b) ≡ true)
      × (starts_with b (common_ancestor a b) ≡ true)
      × (starts_with (common_ancestor a b) p ≡ (starts_with a p && starts_with b p))
common_ancestor-deepest a b p h = (
  common_ancestor-left a b h,
  common_ancestor-right a b h,
  ground (
    arith,
    starts_with_trans a (common_ancestor a b) p (common_ancestor-left a b h),
    starts_with_trans b (common_ancestor a b) p (common_ancestor-right a b h),
    common_ancestor-greatest a b p h,
  ),
)
