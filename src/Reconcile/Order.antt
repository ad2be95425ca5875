-- ===== src/Reconcile/Order.antt =====
-- crates/treesync/src/reconcile/action.rs: `Plan::order`, the order in which a plan is executed.
pub mod Laws
use treesync.Prelude.{
  ℕ, List, [], ◌∷◌, ◌++◌, Bool, true, false, length, compare, Ordering, if◌then◌else◌,
}
use treesync.FilePath.Order.{then_with, compare_paths}
use treesync.Reconcile.Action.{Action, path, is_remove, is_metadata}
use treesync.Reconcile.Sort.{sort_by}

unfoldable pub depth : Action → ℕ
unfolding path
depth a = length (path a)

unfoldable pub shallowest_first : Action → Action → Ordering
unfolding depth then_with compare_paths
shallowest_first a b = then_with (compare (depth a) (depth b)) (compare_paths (path a) (path b))

unfoldable pub deepest_first : Action → Action → Ordering
unfolding depth then_with compare_paths
deepest_first a b = then_with (compare (depth b) (depth a)) (compare_paths (path b) (path a))

-- The three groups of the loop.
pub record Groups : Type 0 where
  pub removals : List Action
  pub writes : List Action
  pub metadata : List Action

unfoldable pub put : Action → Groups → Groups
put a g =
    if is_remove a
    then record g { removals = a ∷ g.removals }
    else if is_metadata a
    then record g { metadata = a ∷ g.metadata }
    else record g { writes = a ∷ g.writes }

unfoldable pub split : List Action → Groups
unfolding put
split [] = record { removals = []; writes = []; metadata = [] }
split (a ∷ rest) = put a (split rest)

unfoldable pub order : List Action → List Action
unfolding split
order actions =
    let g = split actions in
    sort_by deepest_first g.removals
    ++ (sort_by shallowest_first g.writes ++ sort_by deepest_first g.metadata)
