-- ===== src/Remote/Agent.antt =====
-- crates/treesync/src/remote/agent.rs and crates/treesync/src/sink/local.rs: the files that an
-- incoming transfer works on, and what is done to them.
-- Of the file system, the model has the destination, the temporary beside it and the permission
-- bits of their directory. What the operating system answers to a call is a parameter.
pub mod Copy
pub mod Copied
pub mod Resumed
pub mod Frames
pub mod Patch
pub mod Aligned
pub mod Building
pub mod Opened
pub mod Committed
pub mod Publish
pub mod Mode
pub mod Obliging
pub mod Written
pub mod Ahead
pub mod Start
pub mod Delivered
pub mod File
use treesync.Prelude.{
  ℕ, ◌+◌, ◌*◌, List, [], ◌∷◌, ◌++◌, Bool, true, false, Option, none, some, take, ◌==◌, nat_eq,
  if◌then◌else◌,
}
use Prim.Native.Nat.{bit_and, bit_or}
use treesync.FilePath.{Bytes}
use treesync.Error.{
  Text, codes, Error, not_found, permission_denied, already_exists, invalid_path, config, io,
  unsupported, internal, IoKind, io_not_found, io_permission_denied, io_already_exists,
  io_unexpected_eof, io_other, from_io, Result, ok, err, ◌>>=◌,
}
use treesync.Prelude.Int.{ℤ}
use treesync.Remote.Wire.{WireTime, into_system_time}

-- A file with the timestamp that it was given, if one was; or anything else, such as a symlink.
pub data Entry : Type 0 where
  regular : (content : Bytes) (mtime : Option ℤ) → Entry
  irregular : Entry

pub record Disk : Type 0 where
  pub destination : Option Entry
  pub temporary : Option Entry
  pub mode : ℕ

-- The operating system: for each call, in the state that it meets, whether it fails and how. A
-- write that fails leaves a part of its bytes. `existing` is what the destination reads as.
pub record Os : Type 0 where
  pub makes_parent : Disk → Option IoKind
  pub removes : Disk → Option IoKind
  pub creates : Disk → Option IoKind
  pub dates : Disk → Option IoKind
  pub renames : Disk → Option IoKind
  pub flushes : Disk → Option IoKind
  pub stats_parent : Disk → Bool
  pub changes_mode : ℕ → Disk → Option IoKind
  pub existing : Disk → Option Bytes
  pub stats_existing : Disk → Option IoKind
  pub seeks : ℕ → Disk → Option IoKind
  pub reads : ℕ → ℕ → Disk → Option IoKind
  pub writes : Bytes → Disk → Option (IoKind × ℕ)
  pub stats_temporary : Disk → Option IoKind
  pub opens_temporary : Disk → Option IoKind
  pub opens_again : Disk → Option IoKind
  pub seeks_temporary : Disk → Option IoKind
  pub cuts : ℕ → Disk → Option IoKind

-- What a call comes to.
unfoldable pub answer : Option IoKind → Result (Unit {0})
unfolding from_io
answer none = ok tt
answer (some k) = err (from_io k (codes "a file operation"))

-- `is_permission_denied`. An error of the kind `PermissionDenied` never stays `Error::Io`.
unfoldable pub is_permission_denied : Error → Bool
is_permission_denied (permission_denied m) = true
is_permission_denied (not_found m) = false
is_permission_denied (already_exists m) = false
is_permission_denied (invalid_path m) = false
is_permission_denied (config m) = false
is_permission_denied (io m) = false
is_permission_denied (unsupported m) = false
is_permission_denied (internal m) = false

abbrev pub owner_may_write : ℕ
owner_may_write = 192

-- `relax_dir`: the mode to put back, and the directory widened.
unfoldable pub relax_dir : Os → Disk → Option ℕ × Disk
relax_dir os d =
    let original = bit_and d.mode 4095 in
    let widened = bit_or original owner_may_write in
    if os.stats_parent d
    then if bit_and original owner_may_write == owner_may_write
      then (none, d)
      else elim (os.changes_mode widened d) [
        | none ↦ (some original, record d { mode = widened })
        | some k ↦ (none, d)
      ]
    else (none, d)

-- `restore_mode`, where there is a mode to put back.
unfoldable pub restore_mode : Os → Option ℕ → Disk → Disk
restore_mode os none d = d
restore_mode os (some original) d = elim (os.changes_mode original d) [
  | none ↦ record d { mode = original }
  | some k ↦ d
]

-- Whether removing the temporary stops its creation.
unfoldable pub removed : Option IoKind → Disk → Result Disk
unfolding from_io
removed none d = ok (record d { temporary = none })
removed (some io_not_found) d = ok d
removed (some io_permission_denied) d =
    err (from_io io_permission_denied (codes "a file operation"))
removed (some io_already_exists) d = err (from_io io_already_exists (codes "a file operation"))
removed (some io_unexpected_eof) d = err (from_io io_unexpected_eof (codes "a file operation"))
removed (some io_other) d = err (from_io io_other (codes "a file operation"))

-- `create_new`: what is at the path is not reused.
unfoldable pub create_new : Os → Disk → Result Disk
unfolding from_io
create_new os d = elim (os.creates d) [
  | some k ↦ err (from_io k (codes "a file operation"))
  | none ↦ elim d.temporary [
    | some e ↦ err (from_io io_already_exists (codes "a file operation"))
    | none ↦ ok (record d { temporary = some (regular [] none) })
  ]
]

-- `create_temporary`: its answer, and the files. A creation that failed leaves what was removed.
unfoldable pub create_temporary : Os → Disk → Result (Unit {0}) × Disk
unfolding removed create_new
create_temporary os d = elim (removed (os.removes d) d) [
  | err e ↦ (err e, d)
  | ok r ↦ elim (create_new os r) [ err e ↦ (err e, r) | ok t ↦ (ok tt, t) ]
]

-- The second attempt, once the directory was widened; the first error, if it was not.
unfoldable pub retried : Os → Error → Option ℕ × Disk → Result (Unit {0}) × Option ℕ × Disk
unfolding create_temporary
retried os e (none, d) = (err e, none, d)
retried os e (some original, d) =
    let (second, r) = create_temporary os d in (second, some original, r)

unfoldable pub widen_for : Os → Result (Unit {0}) × Disk → Result (Unit {0}) × Option ℕ × Disk
unfolding is_permission_denied relax_dir retried
widen_for os (ok u, d) = (ok u, none, d)
widen_for os (err e, d) =
    if is_permission_denied e then retried os e (relax_dir os d) else (err e, none, d)

-- `open_temporary`: its answer, the mode to put back, and the files.
unfoldable pub open_temporary : Os → Disk → Result (Unit {0}) × Option ℕ × Disk
unfolding create_temporary widen_for
open_temporary os d = widen_for os (create_temporary os d)

unfoldable pub extend : Bytes → Option Entry → Option Entry
extend bs none = none
extend bs (some (regular content mtime)) = some (regular (content ++ bs) none)
extend bs (some irregular) = some irregular

abbrev pub append : Bytes → Disk → Disk
append bs d = record d { temporary = extend bs d.temporary }

-- `write_all` on the temporary.
unfoldable pub write_all : Os → Bytes → Disk → Result (Unit {0}) × Disk
unfolding extend from_io
write_all os bs d = elim (os.writes bs d) [
  | none ↦ (ok tt, append bs d)
  | some (k, n) ↦ (err (from_io k (codes "a file operation")), append (take n bs) d)
]

unfoldable pub date : ℤ → Option Entry → Option Entry
date t none = none
date t (some (regular content mtime)) = some (regular content (some t))
date t (some irregular) = some irregular

-- `set_file_mtime` on the temporary, to the time that `into_system_time` gives.
unfoldable pub set_file_mtime : Os → WireTime → Disk → Result Disk
unfolding answer date
set_file_mtime os t d = do
  _ ← answer (os.dates d)
  ok (record d { temporary = date (into_system_time t) d.temporary })

-- The rename that publishes.
unfoldable pub rename : Os → Disk → Result Disk
unfolding answer
rename os d = do
  _ ← answer (os.renames d)
  ok (record d { destination = d.temporary; temporary = none })

-- `remove_file` on the temporary, its answer not looked at.
unfoldable pub discard : Os → Disk → Disk
discard os d = elim (os.removes d) [ none ↦ record d { temporary = none } | some k ↦ d ]
