-- ===== src/Sink/Report.antt =====
-- crates/treesync/src/sink/mod.rs: the report of a plan that was carried out.
use treesync.Prelude.{ℕ, ◌+◌, List, [], ◌∷◌, ◌++◌, ◌≡◌, refl, sym, ap, ◌∙◌, arith, length}
use treesync.FilePath.{FilePath}
use treesync.Error.{Result, ok, err}
use treesync.Reconcile.Config.{Preserve}
use treesync.Reconcile.Action.{
  Action, create_dir, copy_file, create_symlink, remove, rename, set_metadata, ActionCounts,
  no_actions, count_action, counts_from, counts, total,
}
use treesync.Reconcile.Action.Counts.{total-counts}
use treesync.Sink.{
  Sink, ApplyFailure, ApplyReport, empty, failed_actions, failed, carry_out, note, apply_loop,
  apply,
}

-- Kind by kind.
abbrev pub add : ActionCounts → ActionCounts → ActionCounts
add a b = record {
  create_dirs = a.create_dirs + b.create_dirs;
  copy_files = a.copy_files + b.copy_files;
  create_symlinks = a.create_symlinks + b.create_symlinks;
  removes = a.removes + b.removes;
  renames = a.renames + b.renames;
  set_metadatas = a.set_metadatas + b.set_metadatas;
}

comm_one : (m n : ℕ) → m + 1 + n ≡ m + n + 1
comm_one m n = omega arith

assoc_one : (m n : ℕ) → m + (n + 1) ≡ m + n + 1
assoc_one m n = omega arith

add-count_left :
    (a b : ActionCounts) (x : Action) → add (count_action a x) b ≡ count_action (add a b) x
unfolding count_action
add-count_left a b (create_dir p) =
    ap (λ (n : ℕ). record (add a b) { create_dirs = n }) (comm_one a.create_dirs b.create_dirs)
add-count_left a b (copy_file p) =
    ap (λ (n : ℕ). record (add a b) { copy_files = n }) (comm_one a.copy_files b.copy_files)
add-count_left a b (create_symlink p t) =
    ap (λ (n : ℕ). record (add a b) { create_symlinks = n })
      (comm_one a.create_symlinks b.create_symlinks)
add-count_left a b (remove p) =
    ap (λ (n : ℕ). record (add a b) { removes = n }) (comm_one a.removes b.removes)
add-count_left a b (rename s t) =
    ap (λ (n : ℕ). record (add a b) { renames = n }) (comm_one a.renames b.renames)
add-count_left a b (set_metadata p m) =
    ap (λ (n : ℕ). record (add a b) { set_metadatas = n })
      (comm_one a.set_metadatas b.set_metadatas)

add-count_right :
    (a b : ActionCounts) (x : Action) → add a (count_action b x) ≡ count_action (add a b) x
unfolding count_action
add-count_right a b (create_dir p) =
    ap (λ (n : ℕ). record (add a b) { create_dirs = n }) (assoc_one a.create_dirs b.create_dirs)
add-count_right a b (copy_file p) =
    ap (λ (n : ℕ). record (add a b) { copy_files = n }) (assoc_one a.copy_files b.copy_files)
add-count_right a b (create_symlink p t) =
    ap (λ (n : ℕ). record (add a b) { create_symlinks = n })
      (assoc_one a.create_symlinks b.create_symlinks)
add-count_right a b (remove p) =
    ap (λ (n : ℕ). record (add a b) { removes = n }) (assoc_one a.removes b.removes)
add-count_right a b (rename s t) =
    ap (λ (n : ℕ). record (add a b) { renames = n }) (assoc_one a.renames b.renames)
add-count_right a b (set_metadata p m) =
    ap (λ (n : ℕ). record (add a b) { set_metadatas = n })
      (assoc_one a.set_metadatas b.set_metadatas)

counts_from-snoc :
    (c : ActionCounts) (rest : List Action) (x : Action)
    → counts_from c (rest ++ (x ∷ [])) ≡ count_action (counts_from c rest) x
unfolding counts_from
counts_from-snoc c [] x = refl
counts_from-snoc c (a ∷ rest) x = counts_from-snoc (count_action c a) rest x

failed_actions-append :
    (fs gs : List ApplyFailure) → failed_actions (fs ++ gs) ≡ failed_actions fs ++ failed_actions gs
unfolding failed_actions
failed_actions-append [] gs = refl
failed_actions-append (f ∷ fs) gs =
    ap (λ (x : List Action). f.action ∷ x) (failed_actions-append fs gs)

-- Both counts of a report.
abbrev both : ApplyReport → ActionCounts
both report = add report.applied (failed report)

module _ {S : Type 0} (sink : Sink S) (source_root : FilePath) (preserve : Preserve) where
  note-both :
      (a : Action) (outcome : Result (Unit {0})) (report : ApplyReport)
      → both (note sink source_root preserve a outcome report) ≡ count_action (both report) a
  unfolding note failed
  note-both a (ok u) report = add-count_left report.applied (failed report) a
  note-both a (err e) report =
      ap (λ (rest : List Action). add report.applied (counts_from no_actions rest))
        (failed_actions-append report.failures (record { action = a; error = e } ∷ []))
      ∙ ap (add report.applied)
          (unfold failed_actions in counts_from-snoc no_actions (failed_actions report.failures) a)
      ∙ add-count_right report.applied (failed report) a

  apply_loop-both :
      (rest : List Action) (report : ApplyReport) (s : S)
      → both (apply_loop sink source_root preserve rest report s).0 ≡ counts_from (both report) rest
  unfolding apply_loop counts_from
  apply_loop-both [] report s = refl
  apply_loop-both (a ∷ rest) report s =
      let (outcome, t) = carry_out sink source_root preserve a s in
      apply_loop-both rest (note sink source_root preserve a outcome report) t
      ∙ ap (λ (c : ActionCounts). counts_from c rest) (note-both a outcome report)

total-add : (a b : ActionCounts) → total (add a b) ≡ total a + total b
unfolding total
total-add a b = omega arith

-- Of a plan that was carried out, whatever the sink answers, each action is accounted for once and
-- under its own kind: the counts of what was applied and of what failed add up, kind by kind, to
-- the counts of the plan, and in all to the number of its actions.
pub apply-counts :
    {S : Type 0} (sink : Sink S) (source_root : FilePath) (preserve : Preserve)
    → (actions : List Action) (s : S)
    → (let (report, t) = apply sink source_root preserve actions s in
        (add report.applied (failed report) ≡ counts actions)
        × (total report.applied + total (failed report) ≡ length actions))
unfolding apply empty counts failed
apply-counts sink source_root preserve actions s =
    let report : ApplyReport = (apply_loop sink source_root preserve actions empty s).0 in
    let kinds : add report.applied (failed report) ≡ counts actions =
      apply_loop-both sink source_root preserve actions empty s in
    (kinds, sym (total-add report.applied (failed report)) ∙ ap total kinds ∙ total-counts actions)
