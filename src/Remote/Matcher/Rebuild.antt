-- ===== src/Remote/Matcher/Rebuild.antt =====
-- crates/treesync/src/remote/delta.rs: `Matcher::next_token`, and the file that its tokens stand for.
use treesync.Prelude.{
  ℕ, suc, ◌≤◌, ◌<◌, [], ◌∷◌, ◌++◌, Bool, true, false, Bool-cases, Option, none, some, ◌≡◌, refl,
  sym, ap, ap₂, ◌∙◌, ◌⊎◌, inl, inr, arith, length, length-drop, drop, drop_all, append-nil, All,
}
use mathlib.Core.Path.{subst}
use treesync.FilePath.{Bytes}
use treesync.Error.{Result, ok, err, ◌>>=◌}
use treesync.Remote.Token.Meaning.{all_bytes, Fits}
use treesync.Remote.Matcher.{Matcher, ahead, fill}
use treesync.Remote.Matcher.Move.{
  flush_run, flush_literal, has_window, take_tail, finish, flush_run_if_no_literal,
}
use treesync.Remote.Matcher.Loop.{rolling_of, scan_from, step, unread, remaining}
use treesync.Remote.Matcher.Sound.{
  IsSound, flush_run-IsFlushed, flush_run_if_no_literal-IsFlushed, literal-IsSound, run_bytes,
  Coming,
}
use treesync.Remote.Matcher.Window.{flush_literal-IsSettled, NoCollision}
use treesync.Remote.Matcher.Round.{touch-IsSound, IsScanned, scan-IsScanned}
use treesync.Remote.Matcher.Filled.{Filled, IsFilled, fill-IsFilled}

module _ (blake3 : Bytes → Bytes) (old src : Bytes) where
  -- The tail has gone into the literal.
  record IsTaken (done coming : Bytes) (m r : Matcher) : Type 0 where
    sound : IsSound blake3 old src done coming r
    nothing_ahead : ahead r ≡ []

  take_tail-IsTaken :
      (done coming : Bytes) (m : Matcher) (tail : Bytes)
      → IsSound blake3 old src done coming m
      → ahead m ≡ tail
      → IsTaken done coming m (take_tail tail m)
  unfolding take_tail
  take_tail-IsTaken done coming m [] s e = record { sound = s; nothing_ahead = e }
  take_tail-IsTaken done coming m (b ∷ bs) s e =
      let (sound, closed, l, f) =
        flush_run_if_no_literal-IsFlushed blake3 old src done coming m s in
      let r : Matcher = flush_run_if_no_literal m in
      let gone : drop (length r.buffer) r.buffer ≡ [] =
        drop_all (length r.buffer) r.buffer (omega arith) in
      record {
        sound =
            literal-IsSound blake3 old src done coming r (b ∷ bs) (length r.buffer) sound closed
              (omega arith)
              (ap₂ drop f.same_pos f.same_buffer
                ∙ e
                ∙ sym (append-nil (b ∷ bs))
                ∙ ap (λ (x : Bytes). (b ∷ bs) ++ x) (sym gone));
        nothing_ahead = gone;
      }

  -- Everything was handed over, or lies ready.
  pub record IsDone (done : Bytes) (m : Matcher) : Type 0 where
    pub at_end : m.finished ≡ true
    pub all_there : done ++ all_bytes old m.ready ≡ src
    pub all_hashed : m.hasher ≡ src
    pub all_fit : All (Fits old) m.ready

  finish-IsDone :
      (done coming : Bytes) (m : Matcher)
      → IsSound blake3 old src done coming m
      → coming ≡ []
      → IsDone done (finish m)
  unfolding finish
  finish-IsDone done coming m s e =
      let taken = take_tail-IsTaken done coming m (ahead m) s refl in
      let t : Matcher = take_tail (ahead m) m in
      let (s1, closed, l1, f1) = flush_run-IsFlushed blake3 old src done coming t taken.sound in
      let u : Matcher = flush_run t in
      let (s2, none_left, run, f2) = flush_literal-IsSettled blake3 old src done coming u s1 in
      let r : Matcher = flush_literal u in
      let nothing : ahead r ≡ [] =
        ap₂ drop f2.same_pos f2.same_buffer
        ∙ ap₂ drop f1.same_pos f1.same_buffer
        ∙ taken.nothing_ahead in
      record {
        at_end = refl;
        all_there =
            ap (λ (x : Bytes). done ++ x)
              (sym (append-nil (all_bytes old r.ready))
                ∙ ap (λ (x : Bytes). all_bytes old r.ready ++ x)
                    (sym (
                      ap₂ (λ (o : Option (ℕ × ℕ)) (x : Bytes). run_bytes blake3 old src o ++ x)
                        (run ∙ closed) (ap₂ ◌++◌ none_left (ap₂ ◌++◌ nothing e)))))
            ∙ s2.whole;
        all_hashed =
            sym (append-nil r.hasher) ∙ ap (λ (x : Bytes). r.hasher ++ x) (sym e) ∙ s2.hashed;
        all_fit = s2.fits;
      }

  -- What a step from an open matcher comes to: it ends it, or less of the source remains.
  abbrev pub IsStepped : Bytes → Matcher → Result (Option Matcher) → Type 0
  IsStepped done m (err e) = ⊥
  IsStepped done m (ok none) = ⊥
  IsStepped done m (ok (some r)) =
      IsDone done r
      ⊎ ((r.finished ≡ false)
          × (r.block_size ≡ m.block_size)
          × (remaining r < remaining m)
          × (coming : Bytes) × IsSound blake3 old src done coming r)

  scanned-IsStepped :
      (done coming : Bytes) (m f : Matcher) (o : Option Matcher)
      → f.finished ≡ false
      → f.block_size ≡ m.block_size
      → remaining f ≤ remaining m
      → IsScanned blake3 old src done coming f o
      → IsStepped done m (ok o)
  scanned-IsStepped done coming m f none q z l h = absurd h
  scanned-IsStepped done coming m f (some r) q z l (s, g) = inr (
    g.same_finished ∙ q,
    g.same_size ∙ z,
    omega (
      arith,
      l,
      g.further,
      s.inside,
      length-drop f.pos f.buffer,
      length-drop r.pos r.buffer,
      ap length g.same_buffer,
      ap unread g.same_reader,
    ),
    coming,
    s,
  )

  scan_from-IsStepped :
      (done : Bytes) (m f : Matcher)
      → NoCollision blake3 old src m.block_size
      → m.finished ≡ false
      → Filled blake3 old src done m f
      → IsStepped done m (ok (scan_from blake3 f))
  unfolding scan_from
  scan_from-IsStepped done m f clash q g = elim (Bool-cases (has_window f)) [
    | inl h ↦
        rw (h, IsStepped)
          (let t : Matcher = record f { rolling = none } in
            scanned-IsStepped done g.coming m t _ (g.same_finished ∙ q) g.same_size g.no_more (
              scan-IsScanned blake3 old src done g.coming (suc (length f.buffer))
                (rolling_of blake3 f.rolling f) t
                (subst (NoCollision blake3 old src) (sym g.same_size) clash)
                (touch-IsSound blake3 old src done g.coming f none f.finished g.sound) h
                (omega arith)))
    | inr h ↦
        rw (h, IsStepped)
          (inl (finish-IsDone done g.coming f g.sound (none_coming f g.coming g.sound g.enough h)))
  ]
    where
      none_coming :
          (f : Matcher) (coming : Bytes)
          → IsSound blake3 old src done coming f
          → (f.eof ≡ true) ⊎ (has_window f ≡ true)
          → has_window f ≡ false
          → coming ≡ []
      none_coming f coming s (inl e) h = subst (λ (b : Bool). Coming b f.reader coming) e s.source
      none_coming f coming s (inr e) h = cc (e, h)

  pub step-IsStepped :
      (done coming : Bytes) (m : Matcher)
      → NoCollision blake3 old src m.block_size
      → m.finished ≡ false
      → IsSound blake3 old src done coming m
      → IsStepped done m (step blake3 m)
  unfolding step
  step-IsStepped done coming m clash q s =
      go (fill m) (fill-IsFilled blake3 old src done coming m s)
    where
      go :
          (r : Result Matcher)
          → IsFilled blake3 old src done m r
          → IsStepped done m (r >>= λ f. ok (scan_from blake3 f))
      go (ok f) g = scan_from-IsStepped done m f clash q g
      go (err e) g = absurd g
