-- ===== src/Remote/Frame/Truncation.antt =====
-- crates/treesync/src/remote/protocol.rs: `read_frame` on a stream that ends inside a frame.
use treesync.Prelude.{
  ℕ, zero, suc, ◌+◌, ◌-◌, ◌≤◌, ◌<◌, ◌++◌, false, Bool-cases, none, some, ◌≡◌, refl, ap, ◌∙◌, inl,
  inr, arith, ltb, leb, ltb→lt, ltb→le, length, length-append, length-take, take, if◌then◌else◌,
}
use mathlib.Core.Path.{subst}
use treesync.Prelude.{sym, if_cases, Option}
use treesync.FilePath.{Bytes}
use treesync.Error.{Result, codes, internal, io_unexpected_eof, ok, err}
use treesync.Remote.Frame.{
  max_frame, Codec, Zstd, to_le_bytes, has_flag, clear_flag, encode_frame, ending, failed,
  read_exact, header_failed, body_failed, read_body, read_header, read_frame, expected,
  expect_frame,
}
use treesync.Remote.Frame.RoundTrip.{at, IsFrame, read_frame-parts, encode_frame-IsFrame}

read_exact-short :
    (n : ℕ) (xs : Bytes) → length xs < n → read_exact n (at xs) ≡ failed io_unexpected_eof
unfolding read_exact ending
read_exact-short n xs h = rw short
  where
    short : leb n (length xs) ≡ false
    short = ground (arith, h)

take-header :
    (n k : ℕ) (body : Bytes)
    → 4 ≤ k
    → take k (to_le_bytes n ++ body) ≡ to_le_bytes n ++ take (k - 4) body
unfolding to_le_bytes
take-header n (suc (suc (suc (suc j)))) body h =
    ap (λ (m : ℕ). to_le_bytes n ++ take m body) (omega arith)
take-header n zero body h = absurd (omega (arith, h))
take-header n (suc zero) body h = absurd (omega (arith, h))
take-header n (suc (suc zero)) body h = absurd (omega (arith, h))
take-header n (suc (suc (suc zero))) body h = absurd (omega (arith, h))

length-to_le_bytes : (n : ℕ) → length (to_le_bytes n) ≡ 4
unfolding to_le_bytes
length-to_le_bytes n = refl

abbrev pub IsInternal : {A : Type 0} → Result A → Type 0
IsInternal (ok a) = ⊥
IsInternal (err (internal m)) = Unit
IsInternal (err e) = ⊥

module _ {A : Type 0} (codec : Codec A) (zstd : Zstd) where
  cut-header : (k : ℕ) (f : Bytes) → k < 4 → (read_frame codec zstd (at (take k f))).0 ≡ ok none
  unfolding read_frame read_header header_failed
  cut-header k f h = rw (read_exact-short 4 (take k f) (omega (arith, h, length-take k f)))

  cut-body :
      (k : ℕ) (f : Bytes) (v : A)
      → IsFrame codec zstd f v
      → 4 ≤ k
      → k < length f
      → (read_frame codec zstd (at (take k f))).0
        ≡ err (internal (codes "stream ended inside a frame"))
  unfolding read_body body_failed
  cut-body k f v s h l =
      let whole : length f ≡ 4 + length s.body =
        ap length s.parts
        ∙ length-append (to_le_bytes s.header) s.body
        ∙ ap (λ (n : ℕ). n + length s.body) (length-to_le_bytes s.header) in
      ap (λ (x : Bytes). (read_frame codec zstd (at x)).0)
        (ap (take k) s.parts ∙ take-header s.header k s.body h)
      ∙ ap (λ r. r.0)
          (read_frame-parts codec zstd s.header (take (k - 4) s.body) s.bound
            (omega (arith, s.size, s.fits)))
      ∙ ap (λ e. (read_body codec zstd (has_flag s.header) e).0)
          (read_exact-short (clear_flag s.header) (take (k - 4) s.body)
            (omega (arith, s.size, whole, l, h, length-take (k - 4) s.body)))

  module _ (decode-encode : (v : A) (b : Bytes) → codec.encode v ≡ some b → codec.decode b ≡ some v)
      (decompress-compress : (p c : Bytes)
        → zstd.compress p ≡ some c
        → length p ≤ max_frame
        → zstd.decompress c max_frame ≡ some p) where
    -- A frame that is cut short never gives a message. Cut inside its header it reads as a hangup,
    -- and cut anywhere behind the header it is reported as an internal error.
    pub frame-truncated :
        (v : A) (f : Bytes) (k : ℕ)
        → encode_frame codec zstd v ≡ ok f
        → k < length f
        → (read_frame codec zstd (at (take k f))).0
          ≡ (if ltb k 4 then ok none else err (internal (codes "stream ended inside a frame")))
    frame-truncated v f k e l = elim (Bool-cases (ltb k 4)) [
      | inl q ↦ rw q (cut-header k f (ltb→lt k 4 q))
      | inr q ↦ rw q (
          cut-body k f v (encode_frame-IsFrame codec zstd decode-encode decompress-compress v f e)
            (ltb→le k 4 q) l)
    ]

    -- Where a reply is required, a frame that is cut short anywhere, in its header too, is a failure
    -- of the category `Internal`.
    pub expect_frame-truncated :
        (v : A) (f : Bytes) (k : ℕ)
        → encode_frame codec zstd v ≡ ok f
        → k < length f
        → IsInternal (expect_frame codec zstd (at (take k f))).0
    unfolding expect_frame expected
    expect_frame-truncated v f k e l =
        subst (λ (r : Result (Option A)). IsInternal (expected codec zstd r))
          (sym (frame-truncated v f k e l))
          (if_cases (λ (r : Result (Option A)). IsInternal (expected codec zstd r)) (ltb k 4) _ _
            (λ q. tt) (λ q. tt))
