-- ===== src/Sink/Local.antt =====
-- crates/treesync/src/sink/local.rs: where a path of a plan leads, and the name of a temporary.
-- Which paths are symlinks is a parameter, and so is the hexadecimal digest of a name.
pub mod Confined
pub mod Names
use treesync.Prelude.{
  ℕ, zero, suc, ◌+◌, ◌-◌, ◌/◌, List, [], ◌∷◌, ◌++◌, Bool, true, false, not, Option, none, some, leb,
  length, take, get_elem?, ◌==◌, nat_eq, if◌then◌else◌,
}
use treesync.FilePath.{FilePath, Component, normal, root_dir, cur_dir, parent_dir, Bytes, join}
use treesync.Error.{codes, invalid_path, Result, ok, err, require, ◌>>◌, ◌>>=◌}

unfoldable pub is_normal : Component → Bool
is_normal (normal name) = true
is_normal root_dir = false
is_normal cur_dir = false
is_normal parent_dir = false

-- The loop over the components, as far as one leads out.
unfoldable pub all_normal : FilePath → Bool
unfolding is_normal
all_normal [] = true
all_normal (c ∷ cs) = if is_normal c then all_normal cs else false

-- The loop of `refuse_symlinked_ancestors`: the last component is not an ancestor.
unfoldable pub refuse_from : (FilePath → Bool) → FilePath → FilePath → Result (Unit {0})
refuse_from is_symlink ancestor [] = ok tt
refuse_from is_symlink ancestor (c ∷ []) = ok tt
refuse_from is_symlink ancestor (c ∷ d ∷ cs) =
    let here = ancestor ++ (c ∷ []) in
    let rest = refuse_from is_symlink here (d ∷ cs) in
    if is_symlink here then err (invalid_path (codes "reached through a symlink")) else rest

unfoldable pub refuse_symlinked_ancestors :
    (FilePath → Bool) → FilePath → FilePath → Result (Unit {0})
unfolding refuse_from
refuse_symlinked_ancestors is_symlink root relative = refuse_from is_symlink root relative

unfoldable pub is_empty : FilePath → Bool
is_empty [] = true
is_empty (c ∷ cs) = false

unfoldable pub resolve : (FilePath → Bool) → FilePath → FilePath → Result FilePath
unfolding all_normal refuse_symlinked_ancestors is_empty
resolve is_symlink root relative = do
  require (not (is_empty relative)) (invalid_path (codes "empty path"))
  require (all_normal relative) (invalid_path (codes "not confined to the target root"))
  _ ← refuse_symlinked_ancestors is_symlink root relative
  ok (join root relative)

abbrev pub name_max : ℕ
name_max = 255

abbrev pub digest_len : ℕ
digest_len = 16

-- `is_char_boundary`: a byte that continues a character is not one.
unfoldable pub is_char_boundary : Bytes → ℕ → Bool
is_char_boundary value end = elim (get_elem? value end) [
  | none ↦ end == length value
  | some b ↦ not (b / 64 == 2)
]

-- The loop of `truncate_bytes`.
unfoldable pub boundary_below : Bytes → ℕ → ℕ
unfolding is_char_boundary
boundary_below value zero = zero
boundary_below value (suc end) =
    let lower = boundary_below value end in
    if is_char_boundary value (suc end) then suc end else lower

unfoldable pub truncate_bytes : Bytes → ℕ → Bytes
unfolding boundary_below
truncate_bytes value count =
    if leb (length value) count then value else take (boundary_below value count) value

unfoldable pub temporary_name : (Bytes → Bytes) → Bytes → Bytes → Bytes
unfolding truncate_bytes
temporary_name hex prefix file_name =
    if leb (length (prefix ++ file_name)) name_max
    then prefix ++ file_name
    else prefix
      ++ (truncate_bytes file_name (name_max - (length prefix + digest_len))
          ++ take digest_len (hex file_name))
