-- ===== src/Remote/Frame/RoundTrip.antt =====
-- crates/treesync/src/remote/protocol.rs: `read_frame` of what `encode_frame` gives.
use treesync.Prelude.{
  ℕ, ◌%◌, ◌^◌, ◌≤◌, ◌<◌, List, [], ◌∷◌, ◌++◌, Bool, true, false, Bool-cases, Option, Option-cases,
  none, some, ◌≡◌, refl, ap, ◌∙◌, inl, inr, arith, ltb, leb, ltb→le, ltb→lt, length, length-append,
  take, drop, append_assoc,
}
use mathlib.Core.Path.{subst}
use mathlib.Core.Option.{some-injective}
use treesync.FilePath.{Bytes}
use treesync.Error.{codes, Result, ok, ◌>>=◌, ok-injective}
use treesync.Remote.Frame.{
  max_frame, compress_threshold, Codec, Zstd, Stream, to_le_bytes, from_le_bytes, has_flag,
  set_flag, clear_flag, smaller, compress, framed, frame_of, encode_frame, filled, read_exact,
  or_internal, payload_of, read_body, read_header, read_frame,
}

abbrev pub at : Bytes → Stream
at bytes = record { coming = bytes; fault = none }

from_le_bytes-to_le_bytes : (n : ℕ) → n < 2 ^ 32 → from_le_bytes (to_le_bytes n) ≡ n
unfolding from_le_bytes to_le_bytes
from_le_bytes-to_le_bytes n h = omega (arith, h)

take-append : {A : Type 0} (xs ys : List A) → take (length xs) (xs ++ ys) ≡ xs
take-append [] ys = refl
take-append (x ∷ xs) ys = ap (◌∷◌ x) (take-append xs ys)

drop-append : {A : Type 0} (xs ys : List A) → drop (length xs) (xs ++ ys) ≡ ys
drop-append [] ys = refl
drop-append (x ∷ xs) ys = drop-append xs ys

-- Reading exactly what comes first.
pub read_exact-append : (xs ys : Bytes) → read_exact (length xs) (at (xs ++ ys)) ≡ filled xs (at ys)
unfolding read_exact
read_exact-append xs ys = rw (fits, take-append xs ys, drop-append xs ys)
  where
    fits : leb (length xs) (length (xs ++ ys)) ≡ true
    fits = ground (arith, length-append xs ys)

pub flag-lem :
    (n : ℕ)
    → n ≤ max_frame
    → (has_flag n ≡ false)
      × (clear_flag n ≡ n)
      × (has_flag (set_flag n) ≡ true)
      × (clear_flag (set_flag n) ≡ n)
      × (set_flag n < 2 ^ 32)
unfolding has_flag clear_flag set_flag
flag-lem n h =
    (ground (arith, h), ground (arith, h), ground (arith, h), ground (arith, h), ground (arith, h))

module _ {A : Type 0} (codec : Codec A) (zstd : Zstd) where
  -- What the body of a frame decodes to.
  abbrev decoded : Bool → Bytes → Result (Option A)
  decoded compressed body = do
    payload ← payload_of zstd compressed body
    value ← or_internal (codes "decoding a frame") (codec.decode payload)
    ok (some value)

  -- The parts of a frame for `value`.
  pub record IsFrame (f : Bytes) (value : A) : Type 0 where
    pub header : ℕ
    pub body : Bytes
    pub parts : f ≡ to_le_bytes header ++ body
    pub bound : header < 2 ^ 32
    pub size : clear_flag header ≡ length body
    pub fits : length body ≤ max_frame
    pub value_of : decoded (has_flag header) body ≡ ok (some value)

  read_header-parts :
      (n : ℕ) (s : Stream)
      → n < 2 ^ 32
      → clear_flag n ≤ max_frame
      → read_header codec zstd (filled (to_le_bytes n) s)
        ≡ read_body codec zstd (has_flag n) (read_exact (clear_flag n) s)
  unfolding read_header
  read_header-parts n s h k = rw (from_le_bytes-to_le_bytes n h, small)
    where
      small : ltb max_frame (clear_flag n) ≡ false
      small = ground (arith, k)

  pub read_frame-parts :
      (n : ℕ) (rest : Bytes)
      → n < 2 ^ 32
      → clear_flag n ≤ max_frame
      → read_frame codec zstd (at (to_le_bytes n ++ rest))
        ≡ read_body codec zstd (has_flag n) (read_exact (clear_flag n) (at rest))
  unfolding read_frame to_le_bytes
  read_frame-parts n rest h k =
      ap (read_header codec zstd) (read_exact-append (to_le_bytes n) rest)
      ∙ read_header-parts n (at rest) h k

  frame-reads :
      (f rest : Bytes) (v : A)
      → IsFrame f v
      → read_frame codec zstd (at (f ++ rest)) ≡ (ok (some v), at rest)
  unfolding read_body
  frame-reads f rest v s =
      rw (s.parts, append_assoc (to_le_bytes s.header) s.body rest)
        (read_frame-parts s.header (s.body ++ rest) s.bound (omega (arith, s.size, s.fits))
          ∙ ap
              (λ (n : ℕ).
                read_body codec zstd (has_flag s.header) (read_exact n (at (s.body ++ rest))))
              s.size
          ∙ ap (read_body codec zstd (has_flag s.header)) (read_exact-append s.body rest)
          ∙ ap (λ (r : Result (Option A)). (r, at rest)) s.value_of)

  -- What `compress` gives comes from the compressor, and is shorter.
  compress-some :
      (p c : Bytes) → compress zstd p ≡ some c → (zstd.compress p ≡ some c) × (length c < length p)
  unfolding compress smaller
  compress-some p c e = elim (Bool-cases (ltb (length p) compress_threshold)) [
    | inl small ↦ cc (rw small at e)
    | inr big ↦ elim (Option-cases (zstd.compress p)) [
      | inl q ↦ cc (rw (big, q) at e)
      | inr (d, q) ↦ elim (Bool-cases (ltb (length d) (length p))) [
        | inl l ↦
            let same : d ≡ c = some-injective d c (rw (big, q, l) at e) in
            (
              q ∙ ap some same,
              subst (λ (x : Bytes). length x < length p) same (ltb→lt (length d) (length p) l),
            )
        | inr l ↦ cc (rw (big, q, l) at e)
      ]
    ]
  ]

  framed-IsFrame :
      (v : A) (p : Bytes)
      → ((c : Bytes)
          → zstd.compress p ≡ some c
          → length p ≤ max_frame
          → zstd.decompress c max_frame ≡ some p)
      → codec.decode p ≡ some v
      → length p ≤ max_frame
      → IsFrame (framed p (compress zstd p)) v
  unfolding framed
  framed-IsFrame v p back d l = elim (Option-cases (compress zstd p)) [
    | inl q ↦
        let (plain, cleared, x, y, z) = flag-lem (length p % 2 ^ 32) (omega (arith, l)) in
        record {
          header = length p % 2 ^ 32;
          body = p;
          parts = rw q;
          bound = omega (arith, l);
          size = cleared ∙ omega (arith, l);
          fits = l;
          value_of = unfold payload_of or_internal in rw (plain, d);
        }
    | inr (c, q) ↦
        let (compressed, shorter) = compress-some p c q in
        let (x, y, marked, cleared, z) = flag-lem (length c % 2 ^ 32) (omega (arith, l, shorter)) in
        record {
          header = set_flag (length c % 2 ^ 32);
          body = c;
          parts = rw q;
          bound = z;
          size = cleared ∙ omega (arith, l, shorter);
          fits = omega (arith, l, shorter);
          value_of = unfold payload_of or_internal in rw (marked, back c compressed l, d);
        }
  ]

  module _ (decode-encode : (v : A) (b : Bytes) → codec.encode v ≡ some b → codec.decode b ≡ some v)
      (decompress-compress : (p c : Bytes)
        → zstd.compress p ≡ some c
        → length p ≤ max_frame
        → zstd.decompress c max_frame ≡ some p) where
    pub encode_frame-IsFrame : (v : A) (f : Bytes) → encode_frame codec zstd v ≡ ok f → IsFrame f v
    unfolding encode_frame frame_of
    encode_frame-IsFrame v f e = elim (Option-cases (codec.encode v)) [
      | inl q ↦ cc (rw q at e)
      | inr (p, q) ↦ elim (Bool-cases (ltb max_frame (length p))) [
        | inl big ↦ cc (rw (q, big) at e)
        | inr fits ↦
            subst (λ (g : Bytes). IsFrame g v) (ok-injective (rw (q, fits) at e))
              (framed-IsFrame v p (decompress-compress p) (decode-encode v p q)
                (ltb→le max_frame (length p) fits))
      ]
    ]

    -- A message that was encoded is read back, whether it crossed compressed or not, and the stream
    -- stands right behind its frame. `bincode` decodes what it encoded, and `zstd` expands what it
    -- compressed up to the limit it is given.
    pub frame-roundtrip :
        (v : A) (f rest : Bytes)
        → encode_frame codec zstd v ≡ ok f
        → read_frame codec zstd (at (f ++ rest)) ≡ (ok (some v), at rest)
    frame-roundtrip v f rest e = frame-reads f rest v (encode_frame-IsFrame v f e)
