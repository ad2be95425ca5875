-- ===== src/Remote/Agent/Written.antt =====
-- crates/treesync/src/remote/agent.rs: the frames of a whole transfer, as the agent reads them.
use treesync.Prelude.{
  ℕ, zero, suc, ◌+◌, ◌≤◌, ◌<◌, List, [], ◌∷◌, ◌++◌, Bool, true, false, Option, some, ◌≡◌, refl, sym,
  ap, ◌∙◌, inl, inr, arith, length, append_assoc,
}
use mathlib.Core.Path.{subst}
use treesync.FilePath.{Bytes}
use treesync.Error.{Result, ok, Result-cases, ok-injective}
use treesync.Remote.Frame.{max_frame, Codec, Zstd, Stream, encode_frame, expected, expect_frame}
use treesync.Remote.Frame.RoundTrip.{at, frame-roundtrip}
use treesync.Remote.Sender.{write_frames}
use treesync.Remote.Agent.Frames.{Received, finished, after_frame, frames_loop, receive}
use treesync.Remote.Agent.Aligned.{snoc, recorded, IsShorter, expect_frame-IsShorter}

write_frames-cons :
    {A : Type 0} (codec : Codec A) (zstd : Zstd) (x : A) (xs : List A) (f : Bytes)
    → write_frames codec zstd (x ∷ xs) ≡ ok f
    → (g : Bytes) × (h : Bytes) × (encode_frame codec zstd x ≡ ok g)
      × (write_frames codec zstd xs ≡ ok h)
      × (f ≡ g ++ h)
unfolding write_frames
write_frames-cons codec zstd x xs f e = elim (Result-cases (encode_frame codec zstd x)) [
  | inr (y, q) ↦ cc (rw (q, write_frames) at e)
  | inl (g, q) ↦ elim (Result-cases (write_frames codec zstd xs)) [
    | inr (y, p) ↦ cc (rw (q, p, write_frames) at e)
    | inl (h, p) ↦ (g, h, q, p, sym (ok-injective (rw (q, p, write_frames) at e)))
  ]
]

-- The frames before the last one do not end the transfer, and the last one does.
abbrev pub IsTransfer : {F : Type 0} → (F → Bool) → List F → Type 0
IsTransfer ends [] = ⊥
IsTransfer ends (f ∷ []) = ends f ≡ true
IsTransfer ends (f ∷ g ∷ fs) = (ends f ≡ false) × IsTransfer ends (g ∷ fs)

module _ {F : Type 0} (codec : Codec F) (zstd : Zstd) (ends : F → Bool)
    (decode-encode : (v : F) (b : Bytes) → codec.encode v ≡ some b → codec.decode b ≡ some v)
    (decompress-compress : (p c : Bytes)
      → zstd.compress p ≡ some c
      → length p ≤ max_frame
      → zstd.decompress c max_frame ≡ some p) where
  expect_frame-encoded :
      (f : F) (g rest : Bytes)
      → encode_frame codec zstd f ≡ ok g
      → expect_frame codec zstd (at (g ++ rest)) ≡ (ok f, at rest)
  unfolding expect_frame
  expect_frame-encoded f g rest e =
      ap (λ (r : Result (Option F) × Stream). (expected codec zstd r.0, r.1))
        (frame-roundtrip codec zstd decode-encode decompress-compress f g rest e)
      ∙ unfold expected in refl

  read_first :
      (f : F) (bytes g h rest : Bytes)
      → encode_frame codec zstd f ≡ ok g
      → bytes ≡ g ++ h
      → expect_frame codec zstd (at (bytes ++ rest)) ≡ (ok f, at (h ++ rest))
  read_first f bytes g h rest e p =
      ap (λ (x : Bytes). expect_frame codec zstd (at (x ++ rest))) p
      ∙ ap (λ (x : Bytes). expect_frame codec zstd (at x)) (append_assoc g h rest)
      ∙ expect_frame-encoded f g (h ++ rest) e

  after_frame-last :
      (next : Stream → List F → Received (List F) × Stream) (f : F) (us : List F) (s : Stream)
      → ends f ≡ true
      → after_frame codec zstd ends snoc next (ok f, s) us ≡ (finished (snoc f us), s)
  unfolding after_frame
  after_frame-last next f us s e = rw (e, after_frame)

  after_frame-more :
      (next : Stream → List F → Received (List F) × Stream) (f : F) (us : List F) (s : Stream)
      → ends f ≡ false
      → after_frame codec zstd ends snoc next (ok f, s) us ≡ next s (snoc f us)
  unfolding after_frame
  after_frame-more next f us s e = rw (e, after_frame)

  read_first-shorter :
      (f : F) (s t : Stream)
      → expect_frame codec zstd s ≡ (ok f, t)
      → length t.coming + 4 ≤ length s.coming
  read_first-shorter f s t e =
      subst (IsShorter codec zstd ends (length s.coming)) e
        (expect_frame-IsShorter codec zstd ends s)

  -- The frames of a transfer that was written are read back, one after the other, and the stream
  -- stands behind the last.
  frames_loop-written :
      (fuel : ℕ) (fs us : List F) (bytes rest : Bytes)
      → IsTransfer ends fs
      → write_frames codec zstd fs ≡ ok bytes
      → length (bytes ++ rest) < fuel
      → frames_loop codec zstd ends snoc fuel (at (bytes ++ rest)) us
        ≡ (finished (us ++ fs), at rest)
  unfolding frames_loop
  frames_loop-written zero fs us bytes rest t w l = absurd (omega (arith, l))
  frames_loop-written (suc fuel) [] us bytes rest t w l = absurd t
  frames_loop-written (suc fuel) (f ∷ []) us bytes rest t w l =
      let (g, h, e, p, parts) = write_frames-cons codec zstd f [] bytes w in
      let nothing : h ≡ [] = sym (ok-injective (unfold write_frames in p)) in
      let next = λ (r : Stream) (st : List F). frames_loop codec zstd ends snoc fuel r st in
      ap (λ (r : Result F × Stream). after_frame codec zstd ends snoc next r us)
        (read_first f bytes g h rest e parts)
      ∙ after_frame-last next f us (at (h ++ rest)) t
      ∙ ap (λ (x : Bytes). (finished (snoc f us), at (x ++ rest))) nothing
  frames_loop-written (suc fuel) (f ∷ v ∷ fs) us bytes rest (t, ts) w l =
      let (g, h, e, p, parts) = write_frames-cons codec zstd f (v ∷ fs) bytes w in
      let first = read_first f bytes g h rest e parts in
      let next = λ (r : Stream) (st : List F). frames_loop codec zstd ends snoc fuel r st in
      ap (λ (r : Result F × Stream). after_frame codec zstd ends snoc next r us) first
      ∙ after_frame-more next f us (at (h ++ rest)) t
      ∙ frames_loop-written fuel (v ∷ fs) (snoc f us) h rest ts p
          (omega (arith, l, read_first-shorter f (at (bytes ++ rest)) (at (h ++ rest)) first))
      ∙ ap (λ (x : List F). (finished x, at rest)) (append_assoc us (f ∷ []) (v ∷ fs))

  pub recorded-written :
      (fs : List F) (bytes rest : Bytes)
      → IsTransfer ends fs
      → write_frames codec zstd fs ≡ ok bytes
      → recorded codec zstd ends (at (bytes ++ rest)) ≡ (finished fs, at rest)
  unfolding receive
  recorded-written fs bytes rest t w =
      frames_loop-written (suc (length (bytes ++ rest))) fs [] bytes rest t w (omega arith)
