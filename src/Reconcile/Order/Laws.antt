-- ===== src/Reconcile/Order/Laws.antt =====
-- crates/treesync/src/reconcile/action.rs: the order in which a plan is carried out.
use treesync.Prelude.{
  not, ◌&&◌, ◌==◌, list_eq, beq_refl, ℕ, ◌≤◌, List, [], ◌∷◌, ◌++◌, Bool, true, false, ◌≡◌, ◌≢◌,
  refl, compare, Ordering, All, length, arith, beq→eq,
}
use mathlib.Core.List.{Perm, perm_middle}
use mathlib.Core.List.Perm
use treesync.FilePath.{FilePath, component_eq, starts_with}
use treesync.FilePath.Order.{then_with}
use treesync.Reconcile.Action.{
  Action, path, is_remove, is_metadata, create_dir, copy_file, create_symlink, remove, rename,
  set_metadata,
}
use treesync.Reconcile.Sort.{
  sort_by, sort_by-perm, sort_by-All, sort_by-InOrder, InOrder, InOrder-map, InOrder-append,
  All-map, All-append,
}
use treesync.Reconcile.Order.{depth, shallowest_first, deepest_first, put, split, order}

-- `p` is a directory above `q`.
abbrev pub is_above : FilePath → FilePath → Bool
is_above p q = starts_with q p && not (p == q)

pub data Stage : Type 0 where
  removing writing stamping : Stage

abbrev pub stage : Action → Stage
stage (remove p) = removing
stage (set_metadata p m) = stamping
stage (create_dir p) = writing
stage (copy_file p) = writing
stage (create_symlink p t) = writing
stage (rename s t) = writing

-- Whether an action may stand anywhere before another: removals come first and changes of metadata
-- last, a removal or a change of metadata does not come before one beneath its path, and a write
-- does not come before one above its path.
abbrev pub may_precede_at : Stage → Stage → FilePath → FilePath → Bool
may_precede_at removing removing p q = not (is_above p q)
may_precede_at removing writing p q = true
may_precede_at removing stamping p q = true
may_precede_at writing removing p q = false
may_precede_at writing writing p q = not (is_above q p)
may_precede_at writing stamping p q = true
may_precede_at stamping removing p q = false
may_precede_at stamping writing p q = false
may_precede_at stamping stamping p q = not (is_above p q)

abbrev pub MayPrecede : Action → Action → Type 0
MayPrecede a b = may_precede_at (stage a) (stage b) (path a) (path b) ≡ true

same_length : (p q : FilePath) → starts_with q p ≡ true → length q ≤ length p → p ≡ q
unfolding starts_with
same_length [] [] h l = refl
same_length [] (d ∷ q) h l = absurd (omega arith)
same_length (c ∷ p) [] h l = cc
same_length (c ∷ p) (d ∷ q) h l = ground (arith, beq→eq d c, same_length p q)

not-is_above : (p q : FilePath) → length q ≤ length p → not (is_above p q) ≡ true
not-is_above p q l = ground (arith, same_length p q, beq_refl p)

abbrev Deeper : Action → Action → Type 0
Deeper a b = depth b ≤ depth a

abbrev Shallower : Action → Action → Type 0
Shallower a b = depth a ≤ depth b

-- Both comparisons decide by the depth before they look at the paths.
then_with-gt : (m n : ℕ) (o : Ordering) → then_with (compare m n) o ≡ Ordering.gt → n ≤ m
unfolding then_with
then_with-gt m n o h = ground arith

then_with-ne_gt : (m n : ℕ) (o : Ordering) → then_with (compare m n) o ≢ Ordering.gt → m ≤ n
unfolding then_with
then_with-ne_gt m n o h = ground arith

deepest_first-InOrder : (actions : List Action) → InOrder Deeper (sort_by deepest_first actions)
unfolding deepest_first
deepest_first-InOrder =
    sort_by-InOrder deepest_first Deeper (λ a b h. then_with-gt (depth b) (depth a) _ h)
      (λ a b h. then_with-ne_gt (depth b) (depth a) _ h) (λ a b c h k. omega arith)

shallowest_first-InOrder :
    (actions : List Action) → InOrder Shallower (sort_by shallowest_first actions)
unfolding shallowest_first
shallowest_first-InOrder =
    sort_by-InOrder shallowest_first Shallower (λ a b h. then_with-gt (depth a) (depth b) _ h)
      (λ a b h. then_with-ne_gt (depth a) (depth b) _ h) (λ a b c h k. omega arith)

abbrev IsRemoval : Action → Type 0
IsRemoval a = stage a ≡ removing

abbrev IsWrite : Action → Type 0
IsWrite a = stage a ≡ writing

abbrev IsStamp : Action → Type 0
IsStamp a = stage a ≡ stamping

split-groups :
    (actions : List Action)
    → All IsRemoval (split actions).removals
      × All IsWrite (split actions).writes
      × All IsStamp (split actions).metadata
unfolding split put is_remove is_metadata
split-groups [] = (tt, tt, tt)
split-groups (create_dir p ∷ rest) = let (r, w, m) = split-groups rest in (r, (refl, w), m)
split-groups (copy_file p ∷ rest) = let (r, w, m) = split-groups rest in (r, (refl, w), m)
split-groups (create_symlink p t ∷ rest) = let (r, w, m) = split-groups rest in (r, (refl, w), m)
split-groups (remove p ∷ rest) = let (r, w, m) = split-groups rest in ((refl, r), w, m)
split-groups (rename s t ∷ rest) = let (r, w, m) = split-groups rest in (r, (refl, w), m)
split-groups (set_metadata p x ∷ rest) = let (r, w, m) = split-groups rest in (r, w, (refl, m))

removal_removal : (a b : Action) → IsRemoval a → IsRemoval b → depth b ≤ depth a → MayPrecede a b
unfolding depth
removal_removal a b h k d = rw (h, k) (not-is_above (path a) (path b) d)

write_write : (a b : Action) → IsWrite a → IsWrite b → depth a ≤ depth b → MayPrecede a b
unfolding depth
write_write a b h k d = rw (h, k) (not-is_above (path b) (path a) d)

stamp_stamp : (a b : Action) → IsStamp a → IsStamp b → depth b ≤ depth a → MayPrecede a b
unfolding depth
stamp_stamp a b h k d = rw (h, k) (not-is_above (path a) (path b) d)

removal_write : (a b : Action) → IsRemoval a → IsWrite b → MayPrecede a b
removal_write a b h k = rw (h, k)

removal_stamp : (a b : Action) → IsRemoval a → IsStamp b → MayPrecede a b
removal_stamp a b h k = rw (h, k)

write_stamp : (a b : Action) → IsWrite a → IsStamp b → MayPrecede a b
write_stamp a b h k = rw (h, k)

module _ (actions : List Action) where
  let_groups :
      All IsRemoval (sort_by deepest_first (split actions).removals)
      × All IsWrite (sort_by shallowest_first (split actions).writes)
      × All IsStamp (sort_by deepest_first (split actions).metadata)
  let_groups =
      let (r, w, m) = split-groups actions in
      (
        sort_by-All deepest_first IsRemoval _ r,
        sort_by-All shallowest_first IsWrite _ w,
        sort_by-All deepest_first IsStamp _ m,
      )

  tail-InOrder : InOrder MayPrecede (
      sort_by shallowest_first (split actions).writes
      ++ sort_by deepest_first (split actions).metadata)
  tail-InOrder =
      let (r, w, m) = let_groups in
      InOrder-append MayPrecede _ _
        (InOrder-map write_write _ w (shallowest_first-InOrder (split actions).writes))
        (InOrder-map stamp_stamp _ m (deepest_first-InOrder (split actions).metadata))
        (All-map (λ a h. All-map (λ b k. write_stamp a b h k) _ m) _ w)

  -- In an ordered plan every action may precede every later one: removals stand before writes and
  -- writes before changes of metadata; nothing is removed before what lies beneath it, nothing is
  -- written before a write above its path, and no directory is stamped before what lies beneath it.
  pub order-InOrder : InOrder MayPrecede (order actions)
  unfolding order
  order-InOrder =
      let (r, w, m) = let_groups in
      InOrder-append MayPrecede _ _
        (InOrder-map removal_removal _ r (deepest_first-InOrder (split actions).removals))
        tail-InOrder
        (All-map
          (λ a h.
            All-append (MayPrecede a) _ _ (All-map (λ b k. removal_write a b h k) _ w)
              (All-map (λ b k. removal_stamp a b h k) _ m))
          _ r)

split-perm :
    (actions : List Action)
    → Perm
        ((split actions).removals ++ ((split actions).writes ++ (split actions).metadata))
        actions
unfolding split put is_remove is_metadata
split-perm [] = Perm.rfl
split-perm (remove p ∷ rest) = Perm.cons _ (split-perm rest)
split-perm (set_metadata p x ∷ rest) =
    Perm.trans
      (Perm.append_left (split rest).removals
        (perm_middle (split rest).writes (split rest).metadata))
      (Perm.trans (perm_middle (split rest).removals _) (Perm.cons _ (split-perm rest)))
split-perm (create_dir p ∷ rest) =
    Perm.trans (perm_middle (split rest).removals _) (Perm.cons _ (split-perm rest))
split-perm (copy_file p ∷ rest) =
    Perm.trans (perm_middle (split rest).removals _) (Perm.cons _ (split-perm rest))
split-perm (create_symlink p t ∷ rest) =
    Perm.trans (perm_middle (split rest).removals _) (Perm.cons _ (split-perm rest))
split-perm (rename s t ∷ rest) =
    Perm.trans (perm_middle (split rest).removals _) (Perm.cons _ (split-perm rest))

-- Ordering a plan keeps its actions, each as often as before.
pub order-perm : (actions : List Action) → Perm (order actions) actions
unfolding order
order-perm actions =
    Perm.trans
      (Perm.append (sort_by-perm deepest_first (split actions).removals) (
        Perm.append (sort_by-perm shallowest_first (split actions).writes)
          (sort_by-perm deepest_first (split actions).metadata)))
      (split-perm actions)
