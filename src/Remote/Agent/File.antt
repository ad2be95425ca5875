-- ===== src/Remote/Agent/File.antt =====
-- crates/treesync/src/remote/agent.rs: `receive_file`. What `transfer_paths` answers is a parameter.
pub mod Arriving
pub mod Whole
use treesync.Prelude.{ℕ, List, [], ◌∷◌, ◌++◌, Bool, true, false, Option, none, some}
use treesync.FilePath.{Bytes}
use treesync.Error.{Text, codes, Error, internal, Result, ok, err}
use treesync.Remote.Wire.{WireTime}
use treesync.Remote.Frame.{Codec, Zstd, Stream}
use treesync.Remote.Message.{Chunk, data_of, commit, abort, Response, done}
use treesync.Remote.Agent.{Disk, Os, answer, restore_mode, open_temporary, write_all, discard}
use treesync.Remote.Agent.Frames.{
  chunk_ends, Received, finished, died, out_of_fuel, receive, discard_transfer,
}
use treesync.Remote.Agent.Patch.{publish, end_transfer}

-- The variables of the loop.
pub record Incoming : Type 0 where
  pub disk : Disk
  pub opened : Bool
  pub failure : Option Error
  pub committed : Option WireTime

unfoldable pub after_chunk : Result (Unit {0}) × Disk → Incoming → Incoming
after_chunk (ok u, d) p = record p { disk = d }
after_chunk (err e, d) p = record p { disk = d; failure = some e; opened = false }

unfoldable pub take_data : Os → Bool → Bytes → Incoming → Incoming
unfolding after_chunk write_all
take_data os false bytes p = p
take_data os true bytes p = after_chunk (write_all os bytes p.disk) p

-- An earlier failure is kept.
unfoldable pub abort_file : Option Error → Text → Incoming → Incoming
abort_file (some e) reason p = p
abort_file none reason p = record p {
  failure = some (internal (codes "the sender aborted the transfer: " ++ reason));
}

unfoldable pub take_chunk : Os → Chunk → Incoming → Incoming
unfolding take_data abort_file
take_chunk os (data_of bytes) p = take_data os p.opened bytes p
take_chunk os (commit mtime) p = record p { committed = some mtime }
take_chunk os (abort reason) p = abort_file p.failure reason p

unfoldable pub incoming : Result (Unit {0}) → Disk → Incoming
incoming (ok u) d = record { disk = d; opened = true; failure = none; committed = none }
incoming (err e) d = record { disk = d; opened = false; failure = some e; committed = none }

-- What happens before the loop: the variables, and the mode to put back.
unfoldable pub open_file : Os → Result (Unit {0}) → Disk → Incoming × Option ℕ
unfolding incoming open_temporary
open_file os (err e) d = (incoming (err e) d, none)
open_file os (ok made) d =
    let (opened, original, r) = open_temporary os d in (incoming opened r, original)

-- `outcome`
unfoldable pub commit_file :
    Os → Option Error → Option WireTime → Bool → Disk → Result (Unit {0}) × Disk
unfolding publish
commit_file os (some e) committed opened d = (err e, d)
commit_file os none none opened d = (err (internal (codes "transfer never committed")), d)
commit_file os none (some mtime) false d =
    (err (internal (codes "transfer committed with no open file")), d)
commit_file os none (some mtime) true d = publish os mtime d

unfoldable pub conclude_file :
    Os → Option ℕ → Received Incoming × Stream → Result Response × Stream × Disk
unfolding commit_file end_transfer discard restore_mode
conclude_file os original (finished p, rest) =
    let (response, d) =
      end_transfer os original (commit_file os p.failure p.committed p.opened p.disk) in
    (response, rest, d)
conclude_file os original (died e p, rest) =
    (err e, rest, restore_mode os original (discard os p.disk))
conclude_file os original (out_of_fuel p, rest) =
    (err (internal (codes "out of fuel")), rest, restore_mode os original p.disk)

module _ (codec : Codec Chunk) (zstd : Zstd) (os : Os) where
  unfoldable pub receive_file : Result (Unit {0}) → Stream → Disk → Result Response × Stream × Disk
  unfolding discard_transfer open_file receive conclude_file chunk_ends take_chunk answer
  receive_file (err error) s d =
      let (response, rest) = discard_transfer codec zstd chunk_ends error s in (response, rest, d)
  receive_file (ok paths) s d =
      let (p, original) = open_file os (answer (os.makes_parent d)) d in
      conclude_file os original (receive codec zstd chunk_ends (take_chunk os) s p)
