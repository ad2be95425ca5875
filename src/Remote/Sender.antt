-- ===== src/Remote/Sender.antt =====
-- crates/treesync/src/remote/ssh.rs: the tokens that `send_patch` puts on the stream.
pub mod Trim
use treesync.Prelude.{
  ℕ, zero, suc, ◌+◌, ◌-◌, List, [], ◌∷◌, ◌++◌, Bool, true, false, Option, none, some, leb, ltb,
  length, drop, if◌then◌else◌,
}
use treesync.FilePath.{Bytes}
use treesync.Error.{Error, codes, internal, Result, ok, err, ◌>>=◌}
use treesync.Remote.Wire.{WireTime}
use treesync.Remote.Token.{Token, copy, literal, commit, abort}
use treesync.Remote.Frame.{Codec, Zstd, encode_frame}
use treesync.Remote.Message.{to_string}
use treesync.Remote.Matcher.{Matcher}
use treesync.Remote.Matcher.Loop.{Next, token, ended, failed, stuck, next_token}

unfoldable pub length_of : Token → ℕ
length_of (copy offset len) = len
length_of (literal bytes) = length bytes
length_of (commit mtime hash) = 0
length_of (abort reason) = 0

-- A token that straddles the resume point, without its front.
unfoldable pub trim : ℕ → Token → Token
trim skip (copy offset len) = copy (offset + skip) (len - skip)
trim skip (literal bytes) = literal (drop skip bytes)
trim skip (commit mtime hash) = commit mtime hash
trim skip (abort reason) = abort reason

-- What is sent for a token that starts at `start` of the source.
unfoldable pub to_send : ℕ → ℕ → Token → List Token
unfolding length_of trim
to_send resume_from start t =
    if leb (start + length_of t) resume_from
    then []
    else if ltb start resume_from
    then trim (resume_from - start) t ∷ []
    else t ∷ []

-- How the scan came to its end.
pub data Scanned : Type 0 where
  whole : Matcher → Scanned
  broken : Error → Scanned
  out_of_fuel : Scanned

module _ (blake3 : Bytes → Bytes) (resume_from : ℕ) where
  -- The loop, on fuel: the tokens that were sent, and how it ended.
  unfoldable pub send_loop : ℕ → ℕ → Matcher → List Token × Scanned
  unfolding next_token to_send
  send_loop zero produced m = ([], out_of_fuel)
  send_loop (suc fuel) produced m = elim (next_token blake3 m) [
    | token t r ↦
        let (ts, end) = send_loop fuel (produced + length_of t) r in
        (to_send resume_from produced t ++ ts, end)
    | ended r ↦ ([], whole r)
    | failed e ↦ ([], broken e)
    | stuck ↦ ([], out_of_fuel)
  ]

  -- The frames of a transfer: behind the tokens a `Commit`, or an `Abort` if the source failed.
  unfoldable pub transfer : WireTime → List Token × Scanned → List Token
  unfolding to_string
  transfer mtime (ts, whole m) = ts ++ (commit mtime (blake3 m.hasher) ∷ [])
  transfer mtime (ts, broken e) = ts ++ (abort (to_string e) ∷ [])
  transfer mtime (ts, out_of_fuel) = ts

-- Every frame written in turn.
unfoldable pub write_frames : {A : Type 0} → Codec A → Zstd → List A → Result Bytes
unfolding encode_frame
write_frames codec zstd [] = ok []
write_frames codec zstd (x ∷ xs) = do
  frame ← encode_frame codec zstd x
  rest ← write_frames codec zstd xs
  ok (frame ++ rest)
