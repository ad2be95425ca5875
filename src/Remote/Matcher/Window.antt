-- ===== src/Remote/Matcher/Window.antt =====
-- crates/treesync/src/remote/delta.rs: `Matcher` at a window that matches, at one that does not,
-- and at the tail.
use treesync.Prelude.{
  ℕ, ◌+◌, ◌*◌, ◌≤◌, ◌<◌, [], ◌∷◌, ◌++◌, Option, none, some, ◌≡◌, refl, sym, ap, ap₂, ◌∙◌, inl, inr,
  arith, length, drop, drop_at, append_assoc, nat_eq,
}
use mathlib.Core.Path.{subst}
use treesync.FilePath.{Bytes}
use treesync.Remote.Signature.{strong}
use treesync.Remote.Token.{literal}
use treesync.Remote.Token.Meaning.{range, all_bytes, Fits, all_bytes-snoc, All-snoc}
use treesync.Remote.Matcher.{Matcher, ahead}
use treesync.Remote.Matcher.Move.{flush_literal, flush_run_if_no_literal, passed, byte_at}
use treesync.Remote.Matcher.Sound.{
  IsSound, SameSource, SameSource-refl, flush_run_if_no_literal-IsFlushed, literal-IsSound,
  List-cases, run_bytes, RunFits,
}

module _ (blake3 : Bytes → Bytes) (old src : Bytes) where
  byte_at-ahead :
      (m : Matcher)
      → m.pos < length m.buffer
      → ahead m ≡ (byte_at m.pos m.buffer ∷ []) ++ drop (m.pos + 1) m.buffer
  unfolding byte_at
  byte_at-ahead m h =
      let (x, e, f) = drop_at m.pos m.buffer h in
      f
      ∙ ap (λ (o : Option ℕ). (elim o [ none ↦ 0 | some b ↦ b ]) ∷ drop (m.pos + 1) m.buffer)
          (sym e)

  pub passed-IsSound :
      (done coming : Bytes) (m : Matcher)
      → IsSound blake3 old src done coming m
      → m.pos < length m.buffer
      → IsSound blake3 old src done coming (passed (byte_at m.pos m.buffer) m)
  unfolding passed
  passed-IsSound done coming m s h =
      let (sound, closed, l, f) =
        flush_run_if_no_literal-IsFlushed blake3 old src done coming m s in
      let r : Matcher = flush_run_if_no_literal m in
      let k : r.pos < length r.buffer = rw (f.same_pos, f.same_buffer) h in
      let same : byte_at r.pos r.buffer ≡ byte_at m.pos m.buffer =
        ap₂ byte_at f.same_pos f.same_buffer in
      literal-IsSound blake3 old src done coming r (byte_at m.pos m.buffer ∷ []) (r.pos + 1) sound
        closed (omega (arith, k))
        (byte_at-ahead r k ∙ ap (λ (b : ℕ). (b ∷ []) ++ drop (r.pos + 1) r.buffer) same)

  abbrev pub with_literal : Matcher → Bytes → Matcher
  with_literal m bs = record m { literal = []; ready = m.ready ++ (literal bs ∷ []) }

  with_literal-IsSound :
      (done coming : Bytes) (m : Matcher)
      → IsSound blake3 old src done coming m
      → m.run ≡ none
      → 1 ≤ length m.literal
      → IsSound blake3 old src done coming (with_literal m m.literal)
  with_literal-IsSound done coming m s e long = record {
    positive = s.positive;
    inside = s.inside;
    whole =
        ap (λ (x : Bytes). done ++ x)
          (all_bytes-snoc old m.ready (literal m.literal)
              (run_bytes blake3 old src m.run ++ (ahead m ++ coming))
            ∙ ap
                (λ (r : Option (ℕ × ℕ)).
                  all_bytes old m.ready
                  ++ (m.literal ++ (run_bytes blake3 old src r ++ (ahead m ++ coming))))
                e
            ∙ ap
                (λ (r : Option (ℕ × ℕ)).
                  all_bytes old m.ready
                  ++ (run_bytes blake3 old src r ++ (m.literal ++ (ahead m ++ coming))))
                (sym e))
        ∙ s.whole;
    hashed = s.hashed;
    source = s.source;
    fits = All-snoc (Fits old) m.ready (literal m.literal) s.fits long;
    run_fits = s.run_fits;
    exclusive = inl e;
    known = s.known;
  }

  -- A matcher after a flush of the literal.
  abbrev pub IsSettled : Bytes → Bytes → Matcher → Matcher → Type 0
  IsSettled done coming m r =
      IsSound blake3 old src done coming r
      × (r.literal ≡ [])
      × (r.run ≡ m.run)
      × SameSource blake3 old src m r

  flush_literal_nil : (m : Matcher) → m.literal ≡ [] → flush_literal m ≡ m
  unfolding flush_literal
  flush_literal_nil m e = ground (arith, e)

  flush_literal_cons :
      (m : Matcher) (b : ℕ) (bs : Bytes)
      → m.literal ≡ b ∷ bs
      → flush_literal m ≡ with_literal m m.literal
  unfolding flush_literal
  flush_literal_cons m b bs e = ground (arith, e)

  pub flush_literal-IsSettled :
      (done coming : Bytes) (m : Matcher)
      → IsSound blake3 old src done coming m
      → IsSettled done coming m (flush_literal m)
  flush_literal-IsSettled done coming m s = elim (List-cases blake3 old src m.literal) [
    | inl e ↦
        subst (IsSettled done coming m) (sym (flush_literal_nil m e))
          (s, e, refl, SameSource-refl blake3 old src m)
    | inr (b, bs, e) ↦
        let closed : m.run ≡ none = elim (s.exclusive) [ inl q ↦ q | inr q ↦ cc (e, q) ] in
        subst (IsSettled done coming m) (sym (flush_literal_cons m b bs e)) (
          with_literal-IsSound done coming m s closed (omega (arith, ap length e)),
          refl,
          refl,
          record {
            same_buffer = refl;
            same_pos = refl;
            same_reader = refl;
            same_eof = refl;
            same_size = refl;
            same_strong = refl;
            same_finished = refl;
          },
        )
  ]

  -- A window of the source with the strong hash of one of the old blocks is that block.
  abbrev pub NoCollision : ℕ → Type 0
  NoCollision size =
      (before window after : Bytes) (block : ℕ)
      → before ++ (window ++ after) ≡ src
      → length window ≡ size
      → block * size + size ≤ length old
      → strong blake3 window ≡ strong blake3 (range old (block * size) size)
      → window ≡ range old (block * size) size

  -- The block that the window was found to be, put behind the open run.
  abbrev pub IsWindow : Matcher → ℕ → Type 0
  IsWindow m block =
      (block * m.block_size + m.block_size ≤ length old)
      × (ahead m
          ≡ range old (block * m.block_size) m.block_size ++ drop (m.pos + m.block_size) m.buffer)
      × (m.pos + m.block_size ≤ length m.buffer)

  abbrev pub advanced : Matcher → Option (ℕ × ℕ) → Matcher
  advanced m run = record m { run = run; pos = m.pos + m.block_size; rolling = none }

  -- The run grows by the window.
  pub advanced-IsSound :
      (done coming : Bytes) (m : Matcher) (block : ℕ) (run : Option (ℕ × ℕ))
      → IsSound blake3 old src done coming m
      → IsWindow m block
      → m.literal ≡ []
      → run_bytes blake3 old src run
        ≡ run_bytes blake3 old src m.run ++ range old (block * m.block_size) m.block_size
      → RunFits blake3 old src run
      → IsSound blake3 old src done coming (advanced m run)
  advanced-IsSound done coming m block run s (fits, window, inside) e grown ok =
      let w : Bytes = range old (block * m.block_size) m.block_size in
      let rest : Bytes = drop (m.pos + m.block_size) m.buffer in
      record {
        positive = s.positive;
        inside = inside;
        whole =
            ap (λ (x : Bytes). done ++ (all_bytes old m.ready ++ x))
              (ap₂ (λ (x y : Bytes). x ++ (y ++ (rest ++ coming))) grown e
                ∙ append_assoc (run_bytes blake3 old src m.run) w (rest ++ coming)
                ∙ ap (λ (x : Bytes). run_bytes blake3 old src m.run ++ x)
                    (sym (append_assoc w rest coming)
                      ∙ ap (λ (x : Bytes). x ++ coming) (sym window)
                      ∙ ap (λ (l : Bytes). l ++ (ahead m ++ coming)) (sym e)))
            ∙ s.whole;
        hashed = s.hashed;
        source = s.source;
        fits = s.fits;
        run_fits = ok;
        exclusive = inr e;
        known = s.known;
      }
