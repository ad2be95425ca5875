-- ===== src/Reconcile/Index.antt =====
-- crates/treesync/src/reconcile/index.rs: a snapshot of a tree. The hash map is an association
-- list; nothing here depends on its order.
use treesync.Prelude.{
  ℕ, ◌+◌, List, [], ◌∷◌, Bool, true, false, ◌||◌, Option, none, some, length, ◌==◌, list_eq,
  if◌then◌else◌,
}
use treesync.FilePath.{FilePath, component_eq, starts_with}
use treesync.Reconcile.Entry.{Entry, file, dir, symlink}

abbrev pub Index : Type 0
Index = List (FilePath × Entry)

abbrev pub new : Index
new = []

-- `HashMap::insert`
unfoldable pub insert : FilePath → Entry → Index → Index
insert p e [] = (p, e) ∷ []
insert p e ((q, f) ∷ i) = if q == p then (p, e) ∷ i else (q, f) ∷ insert p e i

unfoldable pub get : Index → FilePath → Option Entry
get [] p = none
get ((q, f) ∷ i) p = if q == p then some f else get i p

unfoldable pub contains : Index → FilePath → Bool
contains [] p = false
contains ((q, f) ∷ i) p = q == p || contains i p

unfoldable pub is_empty_path : FilePath → Bool
is_empty_path [] = true
is_empty_path (c ∷ cs) = false

-- The paths of `under(prefix)`.
unfoldable pub under : FilePath → Index → List FilePath
unfolding is_empty_path
under prefix [] = []
under prefix ((q, f) ∷ i) =
    if is_empty_path prefix || starts_with q prefix then q ∷ under prefix i else under prefix i

unfoldable pub content_size : Entry → ℕ
content_size (file size _ _ _) = size
content_size (dir _) = 0
content_size (symlink _) = 0

pub record TreeTotals : Type 0 where
  pub entries : ℕ
  pub bytes : ℕ

unfoldable pub sum_sizes : Index → ℕ
unfolding content_size
sum_sizes [] = 0
sum_sizes ((q, f) ∷ i) = content_size f + sum_sizes i

unfoldable pub totals : Index → TreeTotals
unfolding sum_sizes
totals i = record { entries = length i; bytes = sum_sizes i }
