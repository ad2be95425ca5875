-- ===== src/FilePath/Order.antt =====
-- The order of paths: by components, `/` before `.` before `..` before a name, names by their bytes.
use treesync.Prelude.{ℕ, [], ◌∷◌, compare, Ordering}
use treesync.FilePath.{FilePath, Component, Bytes, root_dir, cur_dir, parent_dir, normal}

unfoldable pub then_with : Ordering → Ordering → Ordering
then_with Ordering.eq later = later
then_with Ordering.lt later = Ordering.lt
then_with Ordering.gt later = Ordering.gt

unfoldable pub compare_bytes : Bytes → Bytes → Ordering
unfolding then_with
compare_bytes [] [] = Ordering.eq
compare_bytes [] (b ∷ bs) = Ordering.lt
compare_bytes (a ∷ rest) [] = Ordering.gt
compare_bytes (a ∷ rest) (b ∷ bs) = then_with (compare a b) (compare_bytes rest bs)

unfoldable pub component_rank : Component → ℕ
component_rank root_dir = 0
component_rank cur_dir = 1
component_rank parent_dir = 2
component_rank (normal n) = 3

unfoldable pub compare_components : Component → Component → Ordering
unfolding compare_bytes component_rank
compare_components (normal a) (normal b) = compare_bytes a b
compare_components a b = compare (component_rank a) (component_rank b)

unfoldable pub compare_paths : FilePath → FilePath → Ordering
unfolding compare_components then_with
compare_paths [] [] = Ordering.eq
compare_paths [] (d ∷ ds) = Ordering.lt
compare_paths (c ∷ cs) [] = Ordering.gt
compare_paths (c ∷ cs) (d ∷ ds) = then_with (compare_components c d) (compare_paths cs ds)
