-- ===== src/Config/Validate.antt =====
-- crates/treesync/src/config/file.rs: `Config::validate`. The parser of a socket address and the
-- crate `globset` are parameters; messages are shortened.
pub mod Accepts
pub mod Refusal
use treesync.Prelude.{
  ℕ, List, [], ◌∷◌, Bool, true, false, not, ◌&&◌, ◌||◌, Option, none, some, ◌==◌, list_eq, nat_eq,
  if◌then◌else◌,
}
use treesync.FilePath.{FilePath, is_absolute, starts_with}
use treesync.Error.{Text, codes, Error, Result, ok, err, require, map_err, ◌>>=◌, ◌>>◌}
use treesync.Error
use treesync.Filter
use treesync.Filter.{Globs, trim, is_blank}
use treesync.Config.{Metrics, Target, local, ssh, target_path, Sync, Config}

unfoldable pub overlaps : FilePath → FilePath → Bool
overlaps a b = starts_with a b || starts_with b a

abbrev pub refused : Text → Error
refused message = Error.config message

-- `Error::Config(format!("sync {:?}: {err}", ..))`
unfoldable pub in_sync : Error → Error
in_sync e = refused (codes "a sync has an unusable pattern")

unfoldable pub has_empty_host : Target → Bool
unfolding trim is_blank
has_empty_host (local path) = false
has_empty_host (ssh host _ _ _ _ _ _) = is_blank (trim host)

unfoldable pub overlaps_target : FilePath → Target → Bool
unfolding overlaps
overlaps_target source (local path) = overlaps source path
overlaps_target source (ssh _ _ _ _ _ _ _) = false

unfoldable pub is_named : Text → List Text → Bool
is_named name [] = false
is_named name (n ∷ ns) = name == n || is_named name ns

unfoldable pub has_syncs : List Sync → Bool
has_syncs [] = false
has_syncs (s ∷ ss) = true

unfoldable pub parsed : {Address : Type 0} → Option Address → Result (Option Address)
parsed none = err (refused (codes "metrics.listen"))
parsed (some a) = ok (some a)

-- `Metrics::listen_addr`
unfoldable pub listen_addr :
    {Address : Type 0} → (Text → Option Address) → Option Text → Result (Option Address)
unfolding parsed
listen_addr parse_address none = ok none
listen_addr parse_address (some listen) = parsed (parse_address listen)

module _ (globs : Globs) where
  -- One round of the loop over the syncs; `seen` are the names of those before.
  unfoldable pub check_sync : List Text → Sync → Result (Unit {0})
  unfolding trim is_blank is_named target_path Filter.new in_sync has_empty_host overlaps_target
  check_sync seen sync = do
    require (not (is_blank (trim sync.name))) (refused (codes "a [[sync]] has an empty name"))
    require (not (is_named sync.name seen)) (refused (codes "two [[sync]] blocks have one name"))
    require (is_absolute sync.source) (refused (codes "the source must be an absolute path"))
    require (is_absolute (target_path sync.target))
        (refused (codes "the target path must be an absolute path"))
    filter ← map_err in_sync (Filter.new globs sync.exclude)
    require (not (has_empty_host sync.target)) (refused (codes "ssh target has an empty host"))
    require (not (overlaps_target sync.source sync.target))
        (refused (codes "source and target overlap"))

  unfoldable pub check_syncs : List Text → List Sync → Result (Unit {0})
  unfolding check_sync
  check_syncs seen [] = ok tt
  check_syncs seen (s ∷ ss) = do check_sync seen s; check_syncs (s.name ∷ seen) ss

  unfoldable pub validate :
      {Address : Type 0} → (Text → Option Address) → Config → Result (Unit {0})
  unfolding listen_addr has_syncs check_syncs
  validate parse_address config = do
    address ← listen_addr parse_address config.metrics.listen
    require (has_syncs config.syncs) (refused (codes "no [[sync]] blocks"))
    check_syncs [] config.syncs
