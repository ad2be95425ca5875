-- ===== src/Remote/Frame.antt =====
-- crates/treesync/src/remote/protocol.rs: frames. The crates `bincode` and `zstd` are parameters.
-- A stream is the bytes that are still to come, and what comes after them: its end, or a failure.
pub mod Truncation
pub mod RoundTrip
use treesync.Prelude.{
  ℕ, ◌+◌, ◌-◌, ◌*◌, ◌/◌, ◌%◌, ◌^◌, List, [], ◌∷◌, ◌++◌, Bool, true, false, not, Option, none, some,
  ltb, leb, length, take, drop, ◌==◌, nat_eq, if◌then◌else◌,
}
use treesync.FilePath.{Bytes}
use treesync.Error.{
  Text, codes, Error, internal, IoKind, io_not_found, io_permission_denied, io_already_exists,
  io_unexpected_eof, io_other, from_io, Result, ok, err, require, ◌>>=◌, ◌>>◌,
}

abbrev pub max_frame : ℕ
max_frame = 64 * 1024 * 1024

abbrev pub compress_threshold : ℕ
compress_threshold = 4 * 1024

abbrev pub compressed_flag : ℕ
compressed_flag = 2 ^ 31

-- `bincode` for one type of message.
pub record Codec (A : Type 0) : Type 0 where
  pub encode : A → Option Bytes
  pub decode : Bytes → Option A

-- `zstd::bulk`; decompression is given the most bytes that may come out.
pub record Zstd : Type 0 where
  pub compress : Bytes → Option Bytes
  pub decompress : Bytes → ℕ → Option Bytes

pub record Stream : Type 0 where
  pub coming : Bytes
  pub fault : Option IoKind

-- `u32::to_le_bytes` and `u32::from_le_bytes`
unfoldable pub to_le_bytes : ℕ → Bytes
to_le_bytes n = n % 256 ∷ n / 2 ^ 8 % 256 ∷ n / 2 ^ 16 % 256 ∷ n / 2 ^ 24 % 256 ∷ []

unfoldable pub from_le_bytes : Bytes → ℕ
from_le_bytes [] = 0
from_le_bytes (b ∷ bs) = b + 256 * from_le_bytes bs

-- `| COMPRESSED_FLAG`, `& COMPRESSED_FLAG != 0` and `& !COMPRESSED_FLAG` on a `u32`.
unfoldable pub has_flag : ℕ → Bool
has_flag n = n / compressed_flag % 2 == 1

unfoldable pub set_flag : ℕ → ℕ
unfolding has_flag
set_flag n = if has_flag n then n else n + compressed_flag

unfoldable pub clear_flag : ℕ → ℕ
unfolding has_flag
clear_flag n = if has_flag n then n - compressed_flag else n

unfoldable pub smaller : Bytes → Option Bytes → Option Bytes
smaller payload none = none
smaller payload (some compressed) =
    if ltb (length compressed) (length payload) then some compressed else none

unfoldable pub compress : Zstd → Bytes → Option Bytes
unfolding smaller
compress zstd payload =
    if ltb (length payload) compress_threshold
    then none
    else smaller payload (zstd.compress payload)

-- The header and the body, for what `compress` gives.
unfoldable pub framed : Bytes → Option Bytes → Bytes
unfolding to_le_bytes set_flag
framed payload none = to_le_bytes (length payload % 2 ^ 32) ++ payload
framed payload (some smaller) = to_le_bytes (set_flag (length smaller % 2 ^ 32)) ++ smaller

unfoldable pub frame_of : Zstd → Option Bytes → Result Bytes
unfolding compress framed
frame_of zstd none = err (internal (codes "encoding a frame"))
frame_of zstd (some payload) = do
  require (not (ltb max_frame (length payload)))
      (internal (codes "a message exceeds the frame limit"))
  ok (framed payload (compress zstd payload))

unfoldable pub encode_frame : {A : Type 0} → Codec A → Zstd → A → Result Bytes
unfolding frame_of
encode_frame codec zstd value = frame_of zstd (codec.encode value)

-- What `read_exact` of `n` bytes comes to.
pub data Exact : Type 0 where
  filled : Bytes → Stream → Exact
  failed : IoKind → Exact

unfoldable pub ending : Option IoKind → IoKind
ending none = io_unexpected_eof
ending (some k) = k

unfoldable pub read_exact : ℕ → Stream → Exact
unfolding ending
read_exact n s =
    if leb n (length s.coming)
    then filled (take n s.coming) (record s { coming = drop n s.coming })
    else failed (ending s.fault)

-- Of a failed read of the header: only an end of the stream is a hangup.
unfoldable pub header_failed : {A : Type 0} → IoKind → Result (Option A)
unfolding from_io
header_failed io_unexpected_eof = ok none
header_failed io_not_found = err (from_io io_not_found (codes "reading a frame"))
header_failed io_permission_denied = err (from_io io_permission_denied (codes "reading a frame"))
header_failed io_already_exists = err (from_io io_already_exists (codes "reading a frame"))
header_failed io_other = err (from_io io_other (codes "reading a frame"))

-- Of a failed read of the body.
unfoldable pub body_failed : IoKind → Error
unfolding from_io
body_failed io_unexpected_eof = internal (codes "stream ended inside a frame")
body_failed io_not_found = from_io io_not_found (codes "reading a frame")
body_failed io_permission_denied = from_io io_permission_denied (codes "reading a frame")
body_failed io_already_exists = from_io io_already_exists (codes "reading a frame")
body_failed io_other = from_io io_other (codes "reading a frame")

unfoldable pub or_internal : {A : Type 0} → Text → Option A → Result A
or_internal message none = err (internal message)
or_internal message (some a) = ok a

unfoldable pub payload_of : Zstd → Bool → Bytes → Result Bytes
unfolding or_internal
payload_of zstd true body =
    or_internal (codes "decompressing a frame") (zstd.decompress body max_frame)
payload_of zstd false body = ok body

module _ {A : Type 0} (codec : Codec A) (zstd : Zstd) where
  -- The body, once it was read. After a read that failed, nothing more comes from the stream.
  unfoldable pub read_body : Bool → Exact → Result (Option A) × Stream
  unfolding payload_of or_internal body_failed
  read_body compressed (failed k) = (err (body_failed k), record { coming = []; fault = none })
  read_body compressed (filled body rest) = (
    do
      payload ← payload_of zstd compressed body
      value ← or_internal (codes "decoding a frame") (codec.decode payload)
      ok (some value),
    rest,
  )

  unfoldable pub read_header : Exact → Result (Option A) × Stream
  unfolding header_failed from_le_bytes has_flag clear_flag read_body read_exact
  read_header (failed k) = (header_failed k, record { coming = []; fault = none })
  read_header (filled bytes rest) =
      let header = from_le_bytes bytes in
      let size = clear_flag header in
      if ltb max_frame size
      then (err (internal (codes "peer announced a frame over the limit")), rest)
      else read_body (has_flag header) (read_exact size rest)

  unfoldable pub read_frame : Stream → Result (Option A) × Stream
  unfolding read_header read_exact
  read_frame s = read_header (read_exact 4 s)

  -- `expect_frame`: a reply is required.
  unfoldable pub expected : Result (Option A) → Result A
  expected (err e) = err e
  expected (ok none) = err (internal (codes "the connection closed while waiting"))
  expected (ok (some a)) = ok a

  unfoldable pub expect_frame : Stream → Result A × Stream
  unfolding expected read_frame
  expect_frame s = (expected (read_frame s).0, (read_frame s).1)
