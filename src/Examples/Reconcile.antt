-- ===== src/Examples/Reconcile.antt =====
-- The theorems on plans and on filters at concrete inputs.
use treesync.Prelude.{
  ℕ, ◌+◌, List, [], ◌∷◌, Bool, true, false, ◌≡◌, refl, none, some, ◌==◌, list_eq, nat_eq, ◌↔◌,
}
use treesync.Prelude.Int.{pos}
use mathlib.Core.List.{Mem, Perm}
use treesync.FilePath.{FilePath, normal}
use treesync.Error.{Text, ok, err, permission_denied, is_ok}
use treesync.Reconcile.Config.{subtree, quick, default_preserve, ReconcileConfig}
use treesync.Reconcile.Entry.{Metadata, file, dir}
use treesync.Reconcile.Index.{Index}
use treesync.Reconcile.Action.{Action, create_dir, copy_file, remove, set_metadata, path}
use treesync.Reconcile.Action.{total, counts}
use treesync.Sink.{Sink, apply, failed}
use treesync.Sink.Report.{add, apply-counts}
use treesync.Reconcile.Sort.{InOrder}
use treesync.Reconcile.Order.{order}
use treesync.Reconcile.Order.Laws.{MayPrecede, order-InOrder, order-perm}
use treesync.Reconcile.Plan.{plan}
use treesync.Reconcile.Plan.Comparison.{Wants}
use treesync.Reconcile.Plan.Exact.{in_scope, plan-exact}
use treesync.Filter.{
  Globs, Filter, new, excludes, add_patterns, add_globs, built, trimmed, trim, trim_start, trim_end,
  is_whitespace, is_slash, is_blank, has_slash, expand,
}
use treesync.Filter.Laws.{accepts, any_excludes, new-accepts, new-follows}

abbrev folder_d : FilePath
folder_d = normal (b'd' ∷ []) ∷ []

abbrev file_f : FilePath
file_f = normal (b'd' ∷ []) ∷ normal (b'f' ∷ []) ∷ []

abbrev meta : Metadata
meta = record { mode = 0o755; uid = 0; gid = 0 }

-- Out of order: the file before its folder, a removal last.
abbrev sample_actions : List Action
sample_actions =
    copy_file file_f ∷ set_metadata folder_d meta ∷ create_dir folder_d ∷ remove file_f ∷ []

order-InOrder_example : InOrder MayPrecede (order sample_actions)
order-InOrder_example = order-InOrder sample_actions

order-perm_example : Perm (order sample_actions) sample_actions
order-perm_example = order-perm sample_actions

-- The source has the folder with a file in it, the target has a file in the folder's place.
abbrev source_tree : Index
source_tree = (folder_d, dir meta) ∷ (file_f, file 3 (pos 10) none meta) ∷ []

abbrev target_tree : Index
target_tree = (folder_d, file 1 (pos 5) none meta) ∷ []

abbrev settings : ReconcileConfig
settings = record { delete = true; verify = quick; preserve = default_preserve }

plan-exact_example :
    Mem (copy_file file_f) (plan source_tree target_tree (subtree folder_d) settings)
    ↔ (in_scope (subtree folder_d) file_f ≡ true)
      × Wants source_tree target_tree settings (copy_file file_f)
plan-exact_example =
    unfold path in plan-exact source_tree target_tree settings (subtree folder_d) (copy_file file_f)

-- A matcher that knows the names of files at the top of the tree, and nothing of wildcards.
abbrev is_name : Text → FilePath → Bool
is_name t (normal n ∷ []) = n == t
is_name t _ = false

abbrev names_only : Globs
names_only = record { valid = λ t. true; buildable = λ ts. true; matches = is_name }

-- " d/ ", as a pattern
abbrev patterns : List Text
patterns = (b' ' ∷ b'd' ∷ b'/' ∷ b' ' ∷ []) ∷ []

new-accepts_example : is_ok (new names_only patterns) ≡ accepts names_only patterns
new-accepts_example = new-accepts names_only patterns

abbrev d_globs : List Text
d_globs =
    (b'd' ∷ [])
    ∷ (b'd' ∷ b'/' ∷ b'*' ∷ b'*' ∷ [])
    ∷ (b'*' ∷ b'*' ∷ b'/' ∷ b'd' ∷ [])
    ∷ (b'*' ∷ b'*' ∷ b'/' ∷ b'd' ∷ b'/' ∷ b'*' ∷ b'*' ∷ [])
    ∷ []

abbrev built_filter : Filter
built_filter = record { patterns = patterns; set = some d_globs }

new-follows_example :
    (new names_only patterns ≡ ok built_filter)
    × (excludes names_only built_filter folder_d ≡ any_excludes names_only patterns folder_d)
new-follows_example = new-follows names_only patterns built_filter folder_d (
    unfold new add_patterns add_globs built trimmed trim trim_start trim_end is_whitespace is_slash
      is_blank has_slash expand in
    refl)

-- A sink that can do all but copy a file. It counts its calls.
abbrev half_sink : Sink ℕ
half_sink = record {
  create_dir = λ p n. (ok tt, n + 1);
  write_file = λ s p n. (err (permission_denied []), n + 1);
  patch_file = λ s p n. (err (permission_denied []), n + 1);
  create_symlink = λ p t n. (ok tt, n + 1);
  remove = λ p n. (ok tt, n + 1);
  rename = λ s t n. (ok tt, n + 1);
  set_metadata = λ p m k n. (ok tt, n + 1);
}

apply-counts_example :
    (let (report, n) = apply half_sink [] default_preserve sample_actions 0 in
      (add report.applied (failed report) ≡ counts sample_actions)
      × (total report.applied + total (failed report) ≡ 4))
apply-counts_example = apply-counts half_sink [] default_preserve sample_actions 0
