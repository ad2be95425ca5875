-- ===== src/Examples/Watcher.antt =====
-- The theorems on the watcher at concrete inputs.
use treesync.Prelude.{List, [], ◌∷◌, ◌≡◌, refl, ◌&&◌, true, inl, inr, ◌⊎◌}
use treesync.FilePath.{starts_with, parent, component_beq}
use treesync.Prelude.{list_beq}
use treesync.Watcher.Scope.{new, take, common_ancestor, lost_directory}
use treesync.Watcher.Scope.Ancestor.{common_ancestor-deepest}
use treesync.Watcher.Scope.Coverage.{take-covers, Loss, path, unknown, suffer_all, Covers}
use treesync.Watcher.Scope.Narrow.{take-narrow}
use treesync.Watcher.Dispatch.{dispatch, translate, translate_kind, each_path}
use treesync.Watcher.Dispatch.Send.{Accounted}
use treesync.Watcher.Dispatch.Accounts.{dispatch-accounts, dispatch-Covers}
use treesync.Watcher.Stream.{recv}
use treesync.Watcher.Stream.Delivery.{recv-Delivers, IsEvent, Delivers}
use treesync.Examples.Paths.{
  watched, dir_a, file_x, file_y, file_b, full_channel, gap_stream, quiet_channel, new_folder,
  dir_a-IsWellFormed, file_b-IsWellFormed, file_x-IsWellFormed, file_y-IsWellFormed,
}

-- The consumer drops behind: both queued changes and the walk under /w/a come out as one rescan.
recv-Delivers_example :
    IsEvent (recv gap_stream).0
    × (Delivers (recv gap_stream).0 file_x ⊎ Accounted (recv gap_stream).1.channel file_x)
recv-Delivers_example =
    recv-Delivers gap_stream file_x dir_a-IsWellFormed
      (file_x-IsWellFormed, (file_b-IsWellFormed, tt))
      (unfold lost_directory parent starts_with component_beq list_beq in refl) (inl (inl refl))

dispatch-accounts_example : Accounted (dispatch new_folder full_channel) dir_a
dispatch-accounts_example =
    dispatch-accounts new_folder full_channel dir_a refl dir_a-IsWellFormed (dir_a-IsWellFormed, tt)
      (inr (unfold translate translate_kind each_path in inl refl))

dispatch-Covers_example : Covers (dispatch new_folder quiet_channel).signal dir_a
dispatch-Covers_example =
    dispatch-Covers new_folder quiet_channel dir_a tt (dir_a-IsWellFormed, tt)
      (inr (refl, inl refl))

abbrev some_losses : List Loss
some_losses = path file_x ∷ unknown ∷ []

-- /w/b is in doubt by the loss of unknown extent alone.
take-covers_example :
    (starts_with (take (suffer_all new some_losses) watched).0 watched ≡ true)
    × (starts_with file_b (take (suffer_all new some_losses) watched).0 ≡ true)
    × ((take (suffer_all new some_losses) watched).1 ≡ new)
take-covers_example =
    take-covers some_losses watched file_b (file_x-IsWellFormed, (tt, tt)) (inr (inl tt))
      (unfold starts_with component_beq list_beq in refl)

take-narrow_example :
    starts_with (take (suffer_all new (path file_x ∷ path file_y ∷ [])) watched).0 dir_a ≡ true
take-narrow_example =
    take-narrow (path file_x) (path file_y ∷ []) watched dir_a
      (file_x-IsWellFormed, (file_y-IsWellFormed, tt))
      (unfold lost_directory parent starts_with component_beq list_beq in (refl, (refl, tt)))
      (unfold starts_with component_beq list_beq in refl)

common_ancestor-deepest_example :
    (starts_with file_x (common_ancestor file_x file_b) ≡ true)
    × (starts_with file_b (common_ancestor file_x file_b) ≡ true)
    × (starts_with (common_ancestor file_x file_b) watched
        ≡ (starts_with file_x watched && starts_with file_b watched))
common_ancestor-deepest_example = common_ancestor-deepest file_x file_b watched file_x-IsWellFormed
