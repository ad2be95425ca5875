-- ===== src/Remote/Agent/Patch.antt =====
-- crates/treesync/src/remote/agent.rs: `receive_patch`. The hasher is the bytes that it has taken
-- in; the digest of the crate `blake3` is a parameter, and so is what `transfer_paths` answers.
use treesync.Prelude.{
  ℕ, zero, suc, ◌++◌, [], Bool, true, false, Option, none, some, ◌==◌, list_eq, nat_eq,
}
use treesync.FilePath.{Bytes}
use treesync.Error.{Text, codes, Error, internal, Result, ok, err, ◌>>◌}
use treesync.Remote.Wire.{WireTime}
use treesync.Remote.Token.{Token, copy, literal, commit, abort}
use treesync.Remote.Frame.{Codec, Zstd, Stream}
use treesync.Remote.Message.{Response, done}
use treesync.Remote.Agent.{
  Disk, Os, answer, relax_dir, restore_mode, open_temporary, write_all, set_file_mtime, rename,
  discard,
}
use treesync.Remote.Agent.Copy.{Outcome, copy_range, resume}
use treesync.Remote.Agent.Frames.{
  token_ends, Received, finished, died, out_of_fuel, receive, discard_transfer,
}

-- The variables of the loop.
pub record Patch : Type 0 where
  pub disk : Disk
  pub opened : Bool
  pub failure : Option Error
  pub hasher : Bytes
  pub committed : Option (WireTime × Bytes)

abbrev pub fail : Error → Patch → Patch
fail e p = record p { failure = some e; opened = false }

unfoldable pub after_copy : Outcome → Patch → Patch
after_copy (ok u, d, h) p = record p { disk = d; hasher = h }
after_copy (err e, d, h) p = fail e (record p { disk = d; hasher = h })

-- The arm for `Copy`, by the failure so far, the open files and the token.
unfoldable pub take_copy : Os → Option Error → Option Bytes → Bool → ℕ → ℕ → Patch → Patch
unfolding after_copy copy_range
take_copy os (some e) existing opened offset len p = p
take_copy os none none opened offset len p =
    fail (internal (codes "the stream reuses what is not here")) p
take_copy os none (some source) false offset len p =
    fail (internal (codes "the stream reuses what is not here")) p
take_copy os none (some source) true offset len p =
    after_copy (copy_range os source offset len p.disk p.hasher) p

unfoldable pub after_write : Result (Unit {0}) × Disk → Bytes → Patch → Patch
after_write (ok u, d) bytes p = record p { disk = d; hasher = p.hasher ++ bytes }
after_write (err e, d) bytes p = fail e (record p { disk = d })

unfoldable pub take_literal : Os → Bool → Bytes → Patch → Patch
unfolding after_write write_all
take_literal os false bytes p = p
take_literal os true bytes p = after_write (write_all os bytes p.disk) bytes p

-- An earlier failure is kept.
unfoldable pub abort_patch : Option Error → Text → Patch → Patch
abort_patch (some e) reason p = p
abort_patch none reason p = record p {
  failure = some (internal (codes "the sender aborted the patch: " ++ reason));
}

unfoldable pub take_token : Os → Option Bytes → Token → Patch → Patch
unfolding take_copy take_literal abort_patch
take_token os existing (copy offset len) p = take_copy os p.failure existing p.opened offset len p
take_token os existing (literal bytes) p = take_literal os p.opened bytes p
take_token os existing (commit mtime hash) p = record p { committed = some (mtime, hash) }
take_token os existing (abort reason) p = abort_patch p.failure reason p

unfoldable pub with_outcome : Outcome → Patch
with_outcome (ok u, d, h) = record {
  disk = d;
  opened = true;
  failure = none;
  hasher = h;
  committed = none;
}
with_outcome (err e, d, h) = record {
  disk = d;
  opened = false;
  failure = some e;
  hasher = h;
  committed = none;
}

-- What happens before the loop: the variables, and the mode to put back.
unfoldable pub open_patch : Os → ℕ → Result (Unit {0}) → Disk → Patch × Option ℕ
unfolding with_outcome open_temporary relax_dir resume
open_patch os resume_from (err e) d = (with_outcome (err e, d, []), none)
open_patch os zero (ok made) d =
    let (opened, original, r) = open_temporary os d in (with_outcome (opened, r, []), original)
open_patch os (suc resume_from) (ok made) d =
    let (original, r) = relax_dir os d in
    (with_outcome (resume os (suc resume_from) r []), original)

unfoldable pub and_rename : Os → Result Disk → Disk → Result (Unit {0}) × Disk
unfolding rename
and_rename os (err e) d = (err e, d)
and_rename os (ok r) d = elim (rename os r) [ err e ↦ (err e, r) | ok t ↦ (ok tt, t) ]

-- Flushed, then given its timestamp, then renamed.
unfoldable pub publish : Os → WireTime → Disk → Result (Unit {0}) × Disk
unfolding answer set_file_mtime and_rename
publish os mtime d = and_rename os (answer (os.flushes d) >> set_file_mtime os mtime d) d

unfoldable pub if_same : Bool → Result (Unit {0}) × Disk → Disk → Result (Unit {0}) × Disk
if_same true published d = published
if_same false published d =
    (err (internal (codes "the reconstructed file does not match the source")), d)

-- `outcome`: the file published, if it is what the sender read.
unfoldable pub commit_from :
    Os
    → (Bytes → Bytes)
    → Option Error
    → Option (WireTime × Bytes)
    → Bool
    → Bytes
    → Disk
    → Result (Unit {0}) × Disk
unfolding publish if_same
commit_from os blake3 (some e) committed opened hasher d = (err e, d)
commit_from os blake3 none none opened hasher d =
    (err (internal (codes "a patch never committed")), d)
commit_from os blake3 none (some (mtime, expected)) false hasher d =
    (err (internal (codes "a patch committed with no open file")), d)
commit_from os blake3 none (some (mtime, expected)) true hasher d =
    if_same (blake3 hasher == expected) (publish os mtime d) d

unfoldable pub commit_patch : Os → (Bytes → Bytes) → Patch → Result (Unit {0}) × Disk
unfolding commit_from
commit_patch os blake3 p = commit_from os blake3 p.failure p.committed p.opened p.hasher p.disk

-- The temporary removed unless the file was published, and the mode put back.
unfoldable pub end_transfer : Os → Option ℕ → Result (Unit {0}) × Disk → Result Response × Disk
unfolding restore_mode discard
end_transfer os original (ok u, d) = (ok done, restore_mode os original d)
end_transfer os original (err e, d) = (err e, restore_mode os original (discard os d))

unfoldable pub conclude :
    Os → (Bytes → Bytes) → Option ℕ → Received Patch × Stream → Result Response × Stream × Disk
unfolding end_transfer commit_patch
conclude os blake3 original (finished p, rest) =
    let (response, d) = end_transfer os original (commit_patch os blake3 p) in (response, rest, d)
conclude os blake3 original (died e p, rest) = (err e, rest, restore_mode os original p.disk)
conclude os blake3 original (out_of_fuel p, rest) =
    (err (internal (codes "out of fuel")), rest, restore_mode os original p.disk)

module _ (codec : Codec Token) (zstd : Zstd) (blake3 : Bytes → Bytes) (os : Os) where
  unfoldable pub receive_patch :
      Result (Unit {0}) → ℕ → Stream → Disk → Result Response × Stream × Disk
  unfolding discard_transfer open_patch receive conclude token_ends take_token answer
  receive_patch (err error) resume_from s d =
      let (response, rest) = discard_transfer codec zstd token_ends error s in (response, rest, d)
  receive_patch (ok paths) resume_from s d =
      let (p, original) = open_patch os resume_from (answer (os.makes_parent d)) d in
      conclude os blake3 original
        (receive codec zstd token_ends (take_token os (os.existing d)) s p)
