-- ===== src/Remote/Agent/Frames.antt =====
-- crates/treesync/src/remote/agent.rs: the loops that take the frames of a transfer off the stream.
-- On fuel: a frame is four bytes at least, so as many rounds as the stream has bytes are enough.
use treesync.Prelude.{ℕ, zero, suc, Bool, true, false, length, if◌then◌else◌}
use treesync.Error.{codes, Error, internal, Result, ok, err}
use treesync.Remote.Frame.{Codec, Zstd, Stream, expect_frame}
use treesync.Remote.Message.{Chunk, data_of, commit, abort}
use treesync.Remote.Token.{Token, copy, literal}

-- `Token::ends_the_transfer`
unfoldable pub token_ends : Token → Bool
token_ends (copy offset len) = false
token_ends (literal bytes) = false
token_ends (Token.commit mtime hash) = true
token_ends (Token.abort reason) = true

-- `Chunk::ends_the_transfer`
unfoldable pub chunk_ends : Chunk → Bool
chunk_ends (data_of bytes) = false
chunk_ends (commit mtime) = true
chunk_ends (abort reason) = true

-- How the frames came to their end, and the state then: with the last frame of the transfer, or
-- with the stream failing before it.
pub data Received (S : Type 0) : Type 0 where
  finished : S → Received S
  died : Error → S → Received S
  out_of_fuel : S → Received S

module _ {F : Type 0} (codec : Codec F) (zstd : Zstd) (ends : F → Bool) where
  -- One round, by what `expect_frame` gives: `next` is the rest of the loop.
  unfoldable pub after_frame :
      {S : Type 0}
      → (F → S → S)
      → (Stream → S → Received S × Stream)
      → Result F × Stream
      → S
      → Received S × Stream
  after_frame take next (err e, rest) state = (died e state, rest)
  after_frame take next (ok f, rest) state =
      let more = next rest (take f state) in
      if ends f then (finished (take f state), rest) else more

  unfoldable pub frames_loop : {S : Type 0} → (F → S → S) → ℕ → Stream → S → Received S × Stream
  unfolding after_frame expect_frame
  frames_loop take zero s state = (out_of_fuel state, s)
  frames_loop take (suc fuel) s state =
      after_frame take (λ rest st. frames_loop take fuel rest st) (expect_frame codec zstd s) state

  unfoldable pub receive : {S : Type 0} → (F → S → S) → Stream → S → Received S × Stream
  unfolding frames_loop
  receive take s state = frames_loop take (suc (length s.coming)) s state

  -- A failed stream replaces the error of the transfer.
  unfoldable pub refused : {S A : Type 0} → Error → Received S × Stream → Result A × Stream
  refused error (finished state, rest) = (err error, rest)
  refused error (died e state, rest) = (err e, rest)
  refused error (out_of_fuel state, rest) = (err (internal (codes "out of fuel")), rest)

  -- `discard_transfer`
  unfoldable pub discard_transfer : {A : Type 0} → Error → Stream → Result A × Stream
  unfolding receive refused
  discard_transfer error s = refused error (receive {S = Unit} (λ f u. u) s tt)
