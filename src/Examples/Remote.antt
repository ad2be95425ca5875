-- ===== src/Examples/Remote.antt =====
-- The theorems on the remote half at concrete inputs.
use treesync.Prelude.{
  ℕ, [], ◌∷◌, ◌++◌, true, false, Option, none, some, ◌≡◌, ◌≤◌, refl, sym, arith, ltb, leb, length,
  take, list_beq, if◌then◌else◌,
}
use mathlib.Core.Option.{some-injective}
use treesync.Prelude.Int.{negsuc}
use treesync.FilePath.{Bytes, FilePath, normal, component_beq}
use treesync.Error.{Error, not_found, codes, ok, err, internal}
use treesync.Reconcile.Config.{checksum}
use treesync.Reconcile.Entry.{file, dir}
use treesync.Reconcile.Index.{Index, get, contains}
use treesync.Filter
use treesync.Filter.{Globs, allow_all}
use treesync.Remote.Rolling.{new, roll}
use treesync.Remote.Rolling.Laws.{roll-new}
use treesync.Remote.Wire.{wire_time, into_system_time, wire_index, into_index, wire_verify}
use treesync.Remote.Shell.{shell_quote}
use treesync.Remote.Shell.Word.{first_word, bare, first_word-shell_quote}
use treesync.Remote.Wire.Time.{time-roundtrip}
use treesync.Remote.Wire.RoundTrip.{IsPlain, index-roundtrip}
use treesync.Remote.Message.{into_result, from_error, kind_of, to_string, index_options}
use treesync.Remote.Message.Failure.{message_of, failure-crosses, options-agree}
use treesync.Remote.Frame.{
  Codec, Zstd, encode_frame, frame_of, compress, framed, to_le_bytes, set_flag, read_frame,
  max_frame,
}
use treesync.Remote.Frame.RoundTrip.{at, frame-roundtrip}
use treesync.Remote.Frame.{expect_frame}
use treesync.Remote.Frame.Truncation.{IsInternal, frame-truncated, expect_frame-truncated}

roll-new_example : roll (new (250 ∷ 1 ∷ 7 ∷ [])) 250 255 ≡ new (1 ∷ 7 ∷ 255 ∷ [])
roll-new_example = roll-new 250 255 (1 ∷ 7 ∷ []) (omega arith) (omega arith) (omega arith)

-- Half a second before the epoch.
time-roundtrip_example : into_system_time (wire_time (negsuc 499_999_999)) ≡ negsuc 499_999_999
time-roundtrip_example = time-roundtrip (negsuc 499_999_999) (omega arith)

abbrev folder : FilePath
folder = normal (b'd' ∷ []) ∷ []

abbrev inner : FilePath
inner = normal (b'd' ∷ []) ∷ normal (b'f' ∷ []) ∷ []

abbrev small_tree : Index
small_tree =
    (folder, dir (record { mode = 0o755; uid = 0; gid = 0 }))
    ∷ (inner, file 3 (negsuc 4) (some (1 ∷ 2 ∷ [])) (record { mode = 0o644; uid = 1; gid = 1 }))
    ∷ []

small_tree-IsPlain : IsPlain small_tree
unfolding contains component_beq list_beq
small_tree-IsPlain = (refl, tt, (refl, omega arith, tt))

index-roundtrip_example : get (into_index (wire_index small_tree)) inner ≡ get small_tree inner
index-roundtrip_example = index-roundtrip small_tree inner small_tree-IsPlain

failure-crosses_example :
    (f : Error) × (into_result (from_error (not_found (codes "/srv/a"))) ≡ err f)
    × (kind_of f ≡ kind_of (not_found (codes "/srv/a")))
    × (message_of f ≡ codes "agent: " ++ to_string (not_found (codes "/srv/a")))
failure-crosses_example = failure-crosses (not_found (codes "/srv/a"))

abbrev no_globs : Globs
no_globs = record { valid = λ t. false; buildable = λ ts. true; matches = λ t p. false }

options-agree_example :
    index_options no_globs [] (wire_verify checksum)
    ≡ ok (record { filter = allow_all; verify = checksum })
options-agree_example = options-agree no_globs [] allow_all checksum (unfold Filter.new in refl)

-- One byte for a number, and a compressor that stores.
abbrev decode_byte : Bytes → Option ℕ
decode_byte (b ∷ []) = some b
decode_byte _ = none

abbrev byte_codec : Codec ℕ
byte_codec = record { encode = λ n. some (n ∷ []); decode = decode_byte }

abbrev storing : Zstd
storing = record { compress = some; decompress = λ c n. if leb (length c) n then some c else none }

decode-encode_byte :
    (v : ℕ) (b : Bytes) → byte_codec.encode v ≡ some b → byte_codec.decode b ≡ some v
decode-encode_byte v b e = rw (sym (some-injective (v ∷ []) b e))

decompress-compress_storing :
    (p c : Bytes)
    → storing.compress p ≡ some c
    → length p ≤ max_frame
    → storing.decompress c max_frame ≡ some p
decompress-compress_storing p c e h = rw (sym (some-injective p c e)) (ground (arith, h))

abbrev seven : Bytes
seven = 1 ∷ 0 ∷ 0 ∷ 0 ∷ 7 ∷ []

encode_seven : encode_frame byte_codec storing 7 ≡ ok seven
unfolding encode_frame frame_of compress framed to_le_bytes set_flag
encode_seven = refl

frame-roundtrip_example :
    read_frame byte_codec storing (at (seven ++ (9 ∷ []))) ≡ (ok (some 7), at (9 ∷ []))
frame-roundtrip_example =
    frame-roundtrip byte_codec storing decode-encode_byte decompress-compress_storing 7 seven
      (9 ∷ []) encode_seven

frame-truncated_example :
    (read_frame byte_codec storing (at (take 4 seven))).0
    ≡ (if ltb 4 4 then ok none else err (internal (codes "stream ended inside a frame")))
frame-truncated_example =
    frame-truncated byte_codec storing decode-encode_byte decompress-compress_storing 7 seven 4
      encode_seven (omega arith)

-- `it's $x; rm` followed by another word
first_word-shell_quote_example :
    first_word bare (shell_quote (codes "it's $x; rm") ++ codes " agent")
    ≡ some (codes "it's $x; rm", codes " agent")
first_word-shell_quote_example = first_word-shell_quote (codes "it's $x; rm") (codes " agent") refl

expect_frame-truncated_example : IsInternal (expect_frame byte_codec storing (at (take 2 seven))).0
expect_frame-truncated_example =
    expect_frame-truncated byte_codec storing decode-encode_byte decompress-compress_storing 7 seven
      2 encode_seven (omega arith)
