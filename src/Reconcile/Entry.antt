-- ===== src/Reconcile/Entry.antt =====
-- crates/treesync/src/reconcile/index.rs: what a path is, and when two entries differ.
-- A time is its nanoseconds from the Unix epoch, a hash is its bytes.
use treesync.Prelude.{
  ℕ, Bool, true, false, not, ◌&&◌, ◌||◌, Option, none, some, ◌==◌, nat_eq, list_eq,
}
use treesync.Prelude.Int.{ℤ, int_eq}
use treesync.FilePath.{FilePath, Bytes, component_eq}
use treesync.Reconcile.Config.{Preserve}

pub record Metadata : Type 0 where
  pub mode : ℕ
  pub uid : ℕ
  pub gid : ℕ

pub data Entry : Type 0 where
  file : (size : ℕ) (mtime : ℤ) (hash : Option Bytes) (meta : Metadata) → Entry
  dir : (meta : Metadata) → Entry
  symlink : (target : FilePath) → Entry

-- `Metadata::differs_from`
unfoldable pub metadata_differs : Metadata → Metadata → Preserve → Bool
metadata_differs a b preserve =
    preserve.mode && not (a.mode == b.mode)
    || preserve.ownership && (not (a.uid == b.uid) || not (a.gid == b.gid))

-- When both sides carry a hash, the hash decides.
unfoldable pub content_differs : Option Bytes → Option Bytes → Bool → Bool
content_differs (some a) (some b) quick = not (a == b)
content_differs (some a) none quick = quick
content_differs none b quick = quick

-- `Entry::differs_from`
unfoldable pub differs_from : Entry → Entry → Bool
unfolding content_differs
differs_from (file s m h _) (file t n k _) = content_differs h k (not (s == t) || not (m == n))
differs_from (dir _) (dir _) = false
differs_from (symlink a) (symlink b) = not (a == b)
differs_from _ _ = true

unfoldable pub is_dir : Entry → Bool
is_dir (dir m) = true
is_dir _ = false

unfoldable pub metadata : Entry → Option Metadata
metadata (file _ _ _ m) = some m
metadata (dir m) = some m
metadata (symlink _) = none
