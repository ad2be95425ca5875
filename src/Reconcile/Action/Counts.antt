-- ===== src/Reconcile/Action/Counts.antt =====
-- crates/treesync/src/reconcile/action.rs: the counts of a plan.
use treesync.Prelude.{◌+◌, List, [], ◌∷◌, length, ◌≡◌, ◌∙◌, arith}
use treesync.Reconcile.Action.{
  Action, create_dir, copy_file, create_symlink, remove, rename, set_metadata, ActionCounts,
  no_actions, count_action, total, counts_from, counts,
}

total-count_action : (c : ActionCounts) (a : Action) → total (count_action c a) ≡ total c + 1
unfolding total count_action
total-count_action c (create_dir p) = omega arith
total-count_action c (copy_file p) = omega arith
total-count_action c (create_symlink p t) = omega arith
total-count_action c (remove p) = omega arith
total-count_action c (rename s t) = omega arith
total-count_action c (set_metadata p m) = omega arith

total-counts_from :
    (c : ActionCounts) (actions : List Action)
    → total (counts_from c actions) ≡ total c + length actions
unfolding counts_from
total-counts_from c [] = omega arith
total-counts_from c (a ∷ rest) =
    total-counts_from (count_action c a) rest ∙ omega (arith, total-count_action c a)

-- The counts of a plan add up: each action is counted under exactly one heading.
pub total-counts : (actions : List Action) → total (counts actions) ≡ length actions
unfolding counts total
total-counts actions = total-counts_from no_actions actions ∙ omega arith
