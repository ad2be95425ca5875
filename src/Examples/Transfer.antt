-- ===== src/Examples/Transfer.antt =====
-- Runs of a patch between the two hosts, on small files.
use treesync.Prelude.{
  ℕ, zero, suc, ◌≤◌, List, [], ◌∷◌, ◌++◌, true, Option, none, some, ◌≡◌, refl, ap, ◌∙◌, arith, All,
  list_beq,
}
use treesync.Prelude.Int.{ℤ, pos, negsuc}
use mathlib.Core.Path.{subst}
use mathlib.Core.Option.{some-injective}
use treesync.FilePath.{Bytes}
use treesync.Error.{ok, io_other}
use treesync.Remote.Wire.{wire_time, WireTime}
use treesync.Remote.Token.{Token, copy, literal, commit, abort}
use treesync.Remote.Token.Meaning.{all_bytes, Fits}
use treesync.Remote.Frame.{Codec, Zstd, Stream}
use treesync.Remote.Frame.RoundTrip.{at}
use treesync.Remote.Signature.{signature_of}
use treesync.Remote.Matcher.{new}
use treesync.Remote.Sender.{send_loop, transfer, write_frames}
use treesync.Remote.Sender.Trim.{all_to_send, all_to_send-drop}
use treesync.Remote.Agent.{Disk, Os, regular}
use treesync.Remote.Agent.Frames.{token_ends, chunk_ends}
use treesync.Remote.Agent.Aligned.{recorded}
use treesync.Remote.Agent.Patch.{receive_patch}
use treesync.Remote.Agent.Publish.{IsConcluded, frames_of, receive_patch-publish}
use treesync.Remote.Agent.Obliging.{IsObliging}
use treesync.Remote.Agent.Delivered.{IsDelivery, patch-delivers}
use treesync.Remote.Message.{Chunk, data_of}
use treesync.Remote.Message
use treesync.Remote.Agent.File.{receive_file}
use treesync.Remote.Agent.File.Whole.{IsReceived, receive_file-publish}
use treesync.Remote.Agent.Mode.{receive_patch-mode}
use treesync.Remote.Reconnect.{forever, wait_before}
use treesync.Remote.Reconnect.Backoff.{wait_before-bounds}
use treesync.Remote.Resumption.{resumable_from, reply_of, agent_state}
use treesync.Remote.Resumption.Agreement.{resumable_from-Resumes}
use treesync.Remote.Agent.Start.{Resumes}
use Prim.Native.Nat.{min}
use treesync.Examples.Delta.{
  itself, old_bytes, new_bytes, two_reads, two_reads-content, itself-NoCollision,
}

abbrev encode_commit : ℤ → ℕ → Bytes → Option Bytes
encode_commit (pos s) n hash = some (2 ∷ s ∷ n ∷ hash)
encode_commit (negsuc s) n hash = none

abbrev encode_token : Token → Option Bytes
encode_token (copy offset len) = some (0 ∷ offset ∷ len ∷ [])
encode_token (literal bs) = some (1 ∷ bs)
encode_token (commit mtime hash) = encode_commit mtime.secs mtime.nanos hash
encode_token (abort reason) = none

abbrev decode_token : Bytes → Option Token
decode_token (zero ∷ offset ∷ len ∷ []) = some (copy offset len)
decode_token (suc zero ∷ bs) = some (literal bs)
decode_token (suc (suc zero) ∷ s ∷ n ∷ hash) =
    some (commit (record { secs = pos s; nanos = n }) hash)
decode_token bs = none

abbrev token_codec : Codec Token
token_codec = record { encode = encode_token; decode = decode_token }

abbrev no_zstd : Zstd
no_zstd = record { compress = λ p. none; decompress = λ c n. none }

token_codec-decodes : (v : Token) (b : Bytes) → encode_token v ≡ some b → decode_token b ≡ some v
token_codec-decodes (copy offset len) b e =
    subst (λ (x : Bytes). decode_token x ≡ some (copy offset len)) (some-injective _ b e) refl
token_codec-decodes (literal bs) b e =
    subst (λ (x : Bytes). decode_token x ≡ some (literal bs)) (some-injective _ b e) refl
token_codec-decodes (commit mtime hash) b e = go mtime.secs mtime.nanos e
  where
    go :
        (s : ℤ) (n : ℕ)
        → encode_commit s n hash ≡ some b
        → decode_token b ≡ some (commit (record { secs = s; nanos = n }) hash)
    go (pos s) n e =
        subst
          (λ (x : Bytes). decode_token x ≡ some (commit (record { secs = pos s; nanos = n }) hash))
          (some-injective _ b e) refl
    go (negsuc s) n e = absurd (cc e)
token_codec-decodes (abort reason) b e = absurd (cc e)

abbrev nice_os : Os
nice_os = record {
  makes_parent = λ d. none;
  removes = λ d. none;
  creates = λ d. none;
  dates = λ d. none;
  renames = λ d. none;
  flushes = λ d. none;
  stats_parent = λ d. true;
  changes_mode = λ m d. none;
  existing = λ d. some old_bytes;
  stats_existing = λ d. none;
  seeks = λ n d. none;
  reads = λ m n d. none;
  writes = λ bs d. none;
  stats_temporary = λ d. none;
  opens_temporary = λ d. none;
  opens_again = λ d. none;
  seeks_temporary = λ d. none;
  cuts = λ n d. none;
}

nice_os-IsObliging : IsObliging nice_os old_bytes
nice_os-IsObliging = record {
  can_make_parent = λ d. refl;
  can_remove = λ d. refl;
  can_create = λ d. refl;
  can_date = λ d. refl;
  can_rename = λ d. refl;
  can_flush = λ d. refl;
  can_stat = λ d. refl;
  can_seek = λ n d. refl;
  can_read = λ m n d. refl;
  can_write = λ bs d. refl;
  can_stat_temporary = λ d. refl;
  can_open_temporary = λ d. refl;
  can_open_again = λ d. refl;
  can_seek_temporary = λ d. refl;
  can_cut = λ n d. refl;
  reads_as = λ d. refl;
}

-- An interrupted transfer left the first two bytes and one that is stale.
abbrev target : Disk
target = record {
  destination = some (regular old_bytes none);
  temporary = some (regular (9 ∷ 1 ∷ 8 ∷ []) none);
  mode = 493;
}

-- Noon of the first day, and five nanoseconds.
abbrev noon : ℤ
noon = pos 43_200_000_000_005

abbrev at_noon : WireTime
at_noon = record { secs = pos 43200; nanos = 5 }

abbrev sent : List Token
sent =
    transfer itself 2 (wire_time noon)
      (send_loop itself 2 7 0 (new two_reads (signature_of itself 2 old_bytes)))

-- From the third byte of the source on: the rest of a copied run, a literal, the commit.
abbrev tokens : List Token
tokens = copy 1 3 ∷ literal (7 ∷ []) ∷ commit at_noon (9 ∷ 1 ∷ 2 ∷ 3 ∷ 4 ∷ 7 ∷ []) ∷ []

sent-tokens : sent ≡ tokens
unfolding transfer send_loop new signature_of list_beq wire_time
sent-tokens = refl

abbrev wire : Bytes
wire =
    3 ∷ 0 ∷ 0 ∷ 0 ∷ 0 ∷ 1 ∷ 3 ∷ 2 ∷ 0 ∷ 0 ∷ 0 ∷ 1 ∷ 7 ∷ 9 ∷ 0 ∷ 0 ∷ 0 ∷ 2 ∷ 43200 ∷ 5 ∷ 9 ∷ 1 ∷ 2
    ∷ 3 ∷ 4 ∷ 7 ∷ []

tokens-wire : write_frames token_codec no_zstd tokens ≡ ok wire
unfolding write_frames
tokens-wire = refl

patch-delivers_example :
    IsDelivery new_bytes noon
      (at (0 ∷ []))
      (receive_patch token_codec no_zstd itself nice_os (ok tt) 2 (at (wire ++ (0 ∷ []))) target)
patch-delivers_example =
    patch-delivers token_codec no_zstd itself nice_os old_bytes new_bytes 2 7 2 two_reads noon wire
      (0 ∷ []) target token_codec-decodes (λ p c e l. absurd (cc e)) nice_os-IsObliging
      (omega arith) (omega arith) (omega arith) two_reads-content itself-NoCollision (omega arith)
      (9 ∷ 1 ∷ 8 ∷ [], none, refl, omega arith, refl)
      (ap (write_frames token_codec no_zstd) sent-tokens ∙ tokens-wire)

-- The same patch on a system whose disk is full.
abbrev full_os : Os
full_os = record nice_os { writes = λ bs d. some (io_other, 0) }

receive_patch-publish_example :
    (let (response, rest, r) =
        receive_patch token_codec no_zstd itself full_os (ok tt) 2 (at wire) target in
      IsConcluded itself
        (frames_of (recorded token_codec no_zstd token_ends (at wire)).0)
        target
        response
        r
      × (rest ≡ (recorded token_codec no_zstd token_ends (at wire)).1))
receive_patch-publish_example =
    receive_patch-publish token_codec no_zstd itself full_os (ok tt) 2 (at wire) target

all_to_send-drop_example :
    (all_bytes old_bytes (all_to_send 2 0 (literal (9 ∷ []) ∷ copy 0 4 ∷ [])) ≡ 2 ∷ 3 ∷ 4 ∷ [])
    × All (Fits old_bytes) (all_to_send 2 0 (literal (9 ∷ []) ∷ copy 0 4 ∷ []))
all_to_send-drop_example =
    all_to_send-drop old_bytes 2 0 (literal (9 ∷ []) ∷ copy 0 4 ∷ [])
      (omega arith, ((omega arith, omega arith), tt))

abbrev encode_chunk : Chunk → Option Bytes
encode_chunk c = none

-- An empty frame is a chunk of the byte 7, any other commits.
abbrev decode_chunk : Bytes → Option Chunk
decode_chunk [] = some (data_of (7 ∷ []))
decode_chunk (b ∷ bs) = some (Message.commit at_noon)

abbrev sevens : Codec Chunk
sevens = record { encode = encode_chunk; decode = decode_chunk }

abbrev two_frames : Stream
two_frames = at (0 ∷ 0 ∷ 0 ∷ 0 ∷ 1 ∷ 0 ∷ 0 ∷ 0 ∷ 5 ∷ [])

receive_file-publish_example :
    (let (response, rest, r) = receive_file sevens no_zstd nice_os (ok tt) two_frames target in
      IsReceived target (recorded sevens no_zstd chunk_ends two_frames).0 response r
      × (rest ≡ (recorded sevens no_zstd chunk_ends two_frames).1))
receive_file-publish_example = receive_file-publish sevens no_zstd nice_os (ok tt) two_frames target

-- A directory that nobody may write into.
abbrev locked : Disk
locked = record target { mode = 365 }

receive_patch-mode_example :
    (receive_patch token_codec no_zstd itself nice_os (ok tt) 2 (at wire) locked).2.mode ≡ 365
receive_patch-mode_example =
    receive_patch-mode token_codec no_zstd itself nice_os (ok tt) 2 (at wire) locked (λ m r. refl)
      refl

wait_before-bounds_example :
    (wait_before forever 4 ≤ wait_before forever 5)
    × (wait_before forever 4 ≤ forever.max_interval)
    × (min forever.interval forever.max_interval ≤ wait_before forever 4)
wait_before-bounds_example = wait_before-bounds forever 4

-- An interrupted transfer left the first two bytes.
abbrev interrupted : Disk
interrupted = record target { temporary = some (regular (9 ∷ 1 ∷ []) none) }

interrupted-settles :
    resumable_from itself
      (ok new_bytes)
      (reply_of (agent_state nice_os itself true (ok tt) interrupted))
    ≡ ok 2
unfolding resumable_from reply_of agent_state list_beq
interrupted-settles = refl

resumable_from-Resumes_example : Resumes 2 interrupted (9 ∷ 1 ∷ []) × (2 ≤ 6)
resumable_from-Resumes_example =
    resumable_from-Resumes nice_os itself true (ok tt) new_bytes interrupted 2 (λ content k e. e)
      interrupted-settles
