-- ===== src/Remote/Agent/Aligned.antt =====
-- crates/treesync/src/remote/agent.rs: the loops of the transfers, and where they leave the stream.
use treesync.Prelude.{
  ℕ, zero, suc, ◌+◌, ◌≤◌, ◌<◌, List, [], ◌∷◌, ◌++◌, Bool, Bool-cases, Option, none, some, ◌≡◌, refl,
  sym, ap, ◌∙◌, inl, inr, arith, ltb, leb, length, length-drop, take,
}
use treesync.FilePath.{Bytes}
use treesync.Error.{
  io_not_found, io_permission_denied, io_already_exists, io_unexpected_eof, io_other, Result, ok,
  err,
}
use treesync.Remote.Frame.{
  Codec, Zstd, Stream, Exact, filled, failed, read_exact, read_body, read_header, read_frame,
  expected, expect_frame, header_failed, max_frame, clear_flag, from_le_bytes, has_flag,
}
use treesync.Remote.Agent.Frames.{
  Received, finished, died, out_of_fuel, after_frame, frames_loop, receive,
}

abbrev pub fold : {F S : Type 0} → (F → S → S) → S → List F → S
fold take state [] = state
fold take state (f ∷ fs) = fold take (take f state) fs

abbrev pub map_received : {S T : Type 0} → (S → T) → Received S × Stream → Received T × Stream
map_received g (finished s, rest) = (finished (g s), rest)
map_received g (died e s, rest) = (died e (g s), rest)
map_received g (out_of_fuel s, rest) = (out_of_fuel (g s), rest)

-- A frame put behind those that came before.
abbrev pub snoc : {F : Type 0} → F → List F → List F
snoc f fs = fs ++ (f ∷ [])

pub fold-snoc :
    {F S : Type 0} (take : F → S → S) (state : S) (fs : List F) (f : F)
    → fold take state (snoc f fs) ≡ take f (fold take state fs)
fold-snoc take state [] f = refl
fold-snoc take state (g ∷ fs) f = fold-snoc take (take g state) fs f

module _ {F : Type 0} (codec : Codec F) (zstd : Zstd) (ends : F → Bool) where
  after_frame-fold :
      {S : Type 0} (take : F → S → S) (state : S) (fs : List F)
      → (next : Stream → S → Received S × Stream)
      → (record_next : Stream → List F → Received (List F) × Stream) → (r : Result F × Stream)
      → ((s : Stream) (gs : List F)
          → next s (fold take state gs) ≡ map_received (fold take state) (record_next s gs))
      → after_frame codec zstd ends take next r (fold take state fs)
        ≡ map_received (fold take state) (after_frame codec zstd ends snoc record_next r fs)
  unfolding after_frame
  after_frame-fold take state fs next record_next (err e, s) more = refl
  after_frame-fold take state fs next record_next (ok f, s) more = elim (Bool-cases (ends f)) [
    | inl q ↦ rw (q, after_frame) (ap (λ st. (finished st, s)) (sym (fold-snoc take state fs f)))
    | inr q ↦
        rw (q, after_frame) (ap (next s) (sym (fold-snoc take state fs f)) ∙ more s (snoc f fs))
  ]

  frames_loop-fold :
      {S : Type 0} (take : F → S → S) (state : S) (fuel : ℕ) (s : Stream) (fs : List F)
      → frames_loop codec zstd ends take fuel s (fold take state fs)
        ≡ map_received (fold take state) (frames_loop codec zstd ends snoc fuel s fs)
  unfolding frames_loop
  frames_loop-fold take state zero s fs = refl
  frames_loop-fold take state (suc fuel) s fs =
      after_frame-fold take state fs (λ r st. frames_loop codec zstd ends take fuel r st)
        (λ r gs. frames_loop codec zstd ends snoc fuel r gs) (expect_frame codec zstd s)
        (λ r gs. frames_loop-fold take state fuel r gs)

  -- The frames of the next transfer, and where it leaves the stream.
  abbrev pub recorded : Stream → Received (List F) × Stream
  recorded s = receive codec zstd ends snoc s []

  -- A transfer takes in turn the frames that stand on the stream, whatever it does with them.
  pub receive-recorded :
      {S : Type 0} (take : F → S → S) (s : Stream) (state : S)
      → receive codec zstd ends take s state ≡ map_received (fold take state) (recorded s)
  unfolding receive
  receive-recorded take s state = frames_loop-fold take state (suc (length s.coming)) s []

  read_exact-le :
      (n : ℕ) (s : Stream) (b : Bytes) (t : Stream)
      → read_exact n s ≡ filled b t
      → length t.coming + n ≤ length s.coming
  unfolding read_exact
  read_exact-le n s b t e = elim (Bool-cases (leb n (length s.coming))) [
    | inl q ↦
        let same = rw q at e in
        let l : n ≤ length s.coming = ground (arith, q) in
        omega (arith, l, length-drop n s.coming, ap (λ (x : Exact). left_of x) same)
    | inr q ↦ cc (rw q at e)
  ]
    where
      left_of : Exact → ℕ
      left_of (filled b t) = length t.coming
      left_of (failed k) = 0

  -- A read that gave a frame has taken its header.
  abbrev pub IsShorter : ℕ → Result F × Stream → Type 0
  IsShorter n (ok f, rest) = length rest.coming + 4 ≤ n
  IsShorter n (err e, rest) = Unit

  read_body-le :
      (compressed : Bool) (e : Exact) (n : ℕ)
      → ((b : Bytes) (t : Stream) → e ≡ filled b t → length t.coming ≤ n)
      → length (read_body codec zstd compressed e).1.coming ≤ n
  unfolding read_body
  read_body-le compressed (failed k) n l = omega arith
  read_body-le compressed (filled b t) n l = l b t refl

  read_header-le :
      (e : Exact) (n : ℕ) (v : F)
      → ((b : Bytes) (t : Stream) → e ≡ filled b t → length t.coming + 4 ≤ n)
      → (read_header codec zstd e).0 ≡ ok (some v)
      → length (read_header codec zstd e).1.coming + 4 ≤ n
  unfolding read_header header_failed
  read_header-le (failed io_not_found) n v l q = cc q
  read_header-le (failed io_permission_denied) n v l q = cc q
  read_header-le (failed io_already_exists) n v l q = cc q
  read_header-le (failed io_unexpected_eof) n v l q = cc q
  read_header-le (failed io_other) n v l q = cc q
  read_header-le (filled b t) n v l q =
      elim (Bool-cases (ltb max_frame (clear_flag (from_le_bytes b)))) [
        | inl big ↦ cc (rw big at q)
        | inr small ↦ rw small (
            omega (
              arith,
              l b t refl,
              read_body-le (has_flag (from_le_bytes b))
                  (read_exact (clear_flag (from_le_bytes b)) t) (length t.coming)
                  (λ c u h. omega (arith, read_exact-le (clear_flag (from_le_bytes b)) t c u h)),
            ))
      ]

  expected-IsShorter :
      (n : ℕ) (r : Result (Option F)) (rest : Stream)
      → ((v : F) → r ≡ ok (some v) → length rest.coming + 4 ≤ n)
      → IsShorter n (expected codec zstd r, rest)
  unfolding expected
  expected-IsShorter n (err e) rest l = tt
  expected-IsShorter n (ok none) rest l = tt
  expected-IsShorter n (ok (some v)) rest l = l v refl

  pub expect_frame-IsShorter :
      (s : Stream) → IsShorter (length s.coming) (expect_frame codec zstd s)
  unfolding expect_frame read_frame
  expect_frame-IsShorter s =
      expected-IsShorter (length s.coming) (read_header codec zstd (read_exact 4 s)).0
        (read_header codec zstd (read_exact 4 s)).1
        (λ v e.
          read_header-le (read_exact 4 s) (length s.coming) v (λ b t q. read_exact-le 4 s b t q) e)

  -- The loop came to an end.
  abbrev pub IsEnded : {S : Type 0} → Received S × Stream → Type 0
  IsEnded (finished state, rest) = Unit
  IsEnded (died e state, rest) = Unit
  IsEnded (out_of_fuel state, rest) = ⊥

  after_frame-IsEnded :
      {S : Type 0} (take : F → S → S) (next : Stream → S → Received S × Stream) (n : ℕ)
      → (r : Result F × Stream) (state : S) → IsShorter n r
      → ((s : Stream) (st : S) → length s.coming + 4 ≤ n → IsEnded (next s st))
      → IsEnded (after_frame codec zstd ends take next r state)
  unfolding after_frame
  after_frame-IsEnded take next n (err e, rest) state l more = tt
  after_frame-IsEnded take next n (ok f, rest) state l more = elim (Bool-cases (ends f)) [
    | inl q ↦ rw (q, after_frame) tt
    | inr q ↦ rw (q, after_frame) (more rest (take f state) l)
  ]

  frames_loop-IsEnded :
      {S : Type 0} (take : F → S → S) (fuel : ℕ) (s : Stream) (state : S)
      → length s.coming < fuel
      → IsEnded (frames_loop codec zstd ends take fuel s state)
  unfolding frames_loop
  frames_loop-IsEnded take zero s state l = absurd (omega (arith, l))
  frames_loop-IsEnded take (suc fuel) s state l =
      after_frame-IsEnded take (λ r st. frames_loop codec zstd ends take fuel r st)
        (length s.coming) (expect_frame codec zstd s) state (expect_frame-IsShorter s)
        (λ r st k. frames_loop-IsEnded take fuel r st (omega (arith, l, k)))

  pub receive-IsEnded :
      {S : Type 0} (take : F → S → S) (s : Stream) (state : S)
      → IsEnded (receive codec zstd ends take s state)
  unfolding receive
  receive-IsEnded take s state =
      frames_loop-IsEnded take (suc (length s.coming)) s state (omega arith)
