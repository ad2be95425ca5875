-- ===== src/Sink.antt =====
-- crates/treesync/src/sink/mod.rs: what carries out a plan, and the report of it.
pub mod Report
pub mod Local
use treesync.Prelude.{ℕ, ◌+◌, List, [], ◌∷◌, ◌++◌, Bool, true, false, map}
use treesync.FilePath.{FilePath, join}
use treesync.Error.{Error, Result, ok, err}
use treesync.Reconcile.Config.{Preserve}
use treesync.Reconcile.Entry.{Metadata}
use treesync.Reconcile.Action.{
  Action, create_dir, copy_file, create_symlink, remove, rename, set_metadata, path, ActionCounts,
  no_actions, count_action, counts_from,
}

-- The operations of a sink that change its tree, of the state `S`: each answers and leaves a state.
pub record Sink (S : Type 0) : Type 0 where
  pub create_dir : FilePath → S → Result (Unit {0}) × S
  pub write_file : (source relative : FilePath) → S → Result (Unit {0}) × S
  pub patch_file : (source relative : FilePath) → S → Result (Unit {0}) × S
  pub create_symlink : (relative target : FilePath) → S → Result (Unit {0}) × S
  pub remove : FilePath → S → Result (Unit {0}) × S
  pub rename : (source target : FilePath) → S → Result (Unit {0}) × S
  pub set_metadata : FilePath → Metadata → Preserve → S → Result (Unit {0}) × S

pub record ApplyFailure : Type 0 where
  pub action : Action
  pub error : Error

pub record ApplyReport : Type 0 where
  pub applied : ActionCounts
  pub failures : List ApplyFailure

unfoldable pub empty : ApplyReport
empty = record { applied = no_actions; failures = [] }

unfoldable pub is_complete : ApplyReport → Bool
is_complete report = elim report.failures [ [] ↦ true | _ ∷ _ ↦ false ]

unfoldable pub failed_actions : List ApplyFailure → List Action
failed_actions [] = []
failed_actions (f ∷ fs) = f.action ∷ failed_actions fs

unfoldable pub failed : ApplyReport → ActionCounts
unfolding failed_actions counts_from
failed report = counts_from no_actions (failed_actions report.failures)

unfoldable pub paths_of : List Action → List FilePath
unfolding path
paths_of [] = []
paths_of (a ∷ rest) = path a ∷ paths_of rest

unfoldable pub failed_paths : ApplyReport → List FilePath
unfolding failed_actions paths_of
failed_paths report = paths_of (failed_actions report.failures)

module _ {S : Type 0} (sink : Sink S) (source_root : FilePath) (preserve : Preserve) where
  unfoldable pub carry_out : Action → S → Result (Unit {0}) × S
  carry_out (create_dir p) s = sink.create_dir p s
  carry_out (copy_file p) s = sink.patch_file (join source_root p) p s
  carry_out (create_symlink p target) s = sink.create_symlink p target s
  carry_out (remove p) s = sink.remove p s
  carry_out (rename source target) s = sink.rename source target s
  carry_out (set_metadata p metadata) s = sink.set_metadata p metadata preserve s

  unfoldable pub note : Action → Result (Unit {0}) → ApplyReport → ApplyReport
  unfolding count_action
  note a (ok u) report = record report { applied = count_action report.applied a }
  note a (err e) report = record report {
    failures = report.failures ++ (record { action = a; error = e } ∷ []);
  }

  unfoldable pub apply_loop : List Action → ApplyReport → S → ApplyReport × S
  unfolding carry_out note
  apply_loop [] report s = (report, s)
  apply_loop (a ∷ rest) report s =
      let (outcome, t) = carry_out a s in apply_loop rest (note a outcome report) t

  unfoldable pub apply : List Action → S → ApplyReport × S
  unfolding apply_loop empty
  apply actions s = apply_loop actions empty s
