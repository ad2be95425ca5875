-- ===== src/Remote/Matcher/Filled.antt =====
-- crates/treesync/src/remote/delta.rs: `Matcher::fill`.
use treesync.Prelude.{
  ℕ, ◌+◌, ◌≤◌, List, [], ◌∷◌, ◌++◌, Bool, true, false, Bool-cases, Option-cases, some, ◌≡◌, refl,
  sym, ap, ◌∙◌, ◌⊎◌, inl, inr, arith, ltb, length, length-append, drop, drop-append_le,
  append_assoc,
}
use mathlib.Core.Path.{subst}
use mathlib.Core.Option.{some-injective}
use treesync.FilePath.{Bytes}
use treesync.Error.{Result, ok, err}
use treesync.Remote.Matcher.{
  Read, bytes, fault, read_ahead, Matcher, ahead, is_short, drain_passed, fill_loop, fill,
}
use treesync.Remote.Matcher.Move.{has_window}
use treesync.Remote.Matcher.Loop.{unread}
use treesync.Remote.Matcher.Sound.{IsSound, content_of, Coming, produced}

module _ (blake3 : Bytes → Bytes) (old src : Bytes) where
  -- What `fill` comes to from `m`: at the end of the source, or with a whole window.
  pub record Filled (done : Bytes) (m r : Matcher) : Type 0 where
    pub coming : Bytes
    pub sound : IsSound blake3 old src done coming r
    pub enough : (r.eof ≡ true) ⊎ (has_window r ≡ true)
    pub same_size : r.block_size ≡ m.block_size
    pub same_finished : r.finished ≡ m.finished
    pub no_more : length (ahead r) + unread r.reader ≤ length (ahead m) + unread m.reader

  abbrev pub IsFilled : Bytes → Matcher → Result Matcher → Type 0
  IsFilled done m (err e) = ⊥
  IsFilled done m (ok r) = Filled done m r

  enough_read : (m : Matcher) → is_short m ≡ false → (m.eof ≡ true) ⊎ (has_window m ≡ true)
  enough_read m h = elim (Bool-cases m.eof) [ inl e ↦ inl e | inr e ↦ inr (ground (arith, h, e)) ]

  stays-Filled :
      (done coming : Bytes) (m : Matcher)
      → IsSound blake3 old src done coming m
      → is_short m ≡ false
      → Filled done m m
  stays-Filled done coming m s h = record {
    coming = coming;
    sound = s;
    enough = enough_read m h;
    same_size = refl;
    same_finished = refl;
    no_more = omega arith;
  }

  -- The source is at its end.
  ends-Filled :
      (done coming : Bytes) (m : Matcher) (rs : List Read)
      → IsSound blake3 old src done coming m
      → coming ≡ []
      → unread rs ≤ unread m.reader
      → Filled done m (record m { eof = true; reader = rs })
  ends-Filled done coming m rs s e h = record {
    coming = coming;
    sound = record {
      positive = s.positive;
      inside = s.inside;
      whole = s.whole;
      hashed = s.hashed;
      source = e;
      fits = s.fits;
      run_fits = s.run_fits;
      exclusive = s.exclusive;
      known = s.known;
    };
    enough = inl refl;
    same_size = refl;
    same_finished = refl;
    no_more = omega (arith, h);
  }

  is_reading : (m : Matcher) → is_short m ≡ true → m.eof ≡ false
  is_reading m h = elim (Bool-cases m.eof) [ inl e ↦ ground (arith, h, e) | inr e ↦ e ]

  still :
      (m : Matcher) (coming : Bytes)
      → Coming m.eof m.reader coming
      → m.eof ≡ false
      → content_of m.reader ≡ some coming
  still m coming c e = subst (λ (b : Bool). Coming b m.reader coming) e c

  abbrev absorbed : Matcher → List Read → Bytes → Matcher
  absorbed m rs b = record m { reader = rs; hasher = m.hasher ++ b; buffer = m.buffer ++ b }

  absorbed-IsSound :
      (done coming rest : Bytes) (m : Matcher) (rs : List Read) (b : Bytes)
      → IsSound blake3 old src done coming m
      → coming ≡ b ++ rest
      → m.eof ≡ false
      → content_of rs ≡ some rest
      → IsSound blake3 old src done rest (absorbed m rs b)
  absorbed-IsSound done coming rest m rs b s e f c = record {
    positive = s.positive;
    inside = omega (arith, s.inside, length-append m.buffer b);
    whole =
        ap (λ (x : Bytes). done ++ produced blake3 old src m x)
          (ap (λ (x : Bytes). x ++ rest) (drop-append_le m.pos m.buffer b s.inside)
            ∙ append_assoc (ahead m) b rest
            ∙ ap (λ (x : Bytes). ahead m ++ x) (sym e))
        ∙ s.whole;
    hashed = append_assoc m.hasher b rest ∙ ap (λ (x : Bytes). m.hasher ++ x) (sym e) ∙ s.hashed;
    source = subst (λ (x : Bool). Coming x rs rest) (sym f) c;
    fits = s.fits;
    run_fits = s.run_fits;
    exclusive = s.exclusive;
    known = s.known;
  }

  then-Filled :
      (done : Bytes) (m t r : Matcher)
      → t.block_size ≡ m.block_size
      → t.finished ≡ m.finished
      → length (ahead t) + unread t.reader ≤ length (ahead m) + unread m.reader
      → Filled done t r
      → Filled done m r
  then-Filled done m t r e f l g = record {
    coming = g.coming;
    sound = g.sound;
    enough = g.enough;
    same_size = g.same_size ∙ e;
    same_finished = g.same_finished ∙ f;
    no_more = omega (arith, l, g.no_more);
  }

  then-IsFilled :
      (done : Bytes) (m t : Matcher) (r : Result Matcher)
      → t.block_size ≡ m.block_size
      → t.finished ≡ m.finished
      → length (ahead t) + unread t.reader ≤ length (ahead m) + unread m.reader
      → IsFilled done t r
      → IsFilled done m r
  then-IsFilled done m t (ok r) e f l g = then-Filled done m t r e f l g
  then-IsFilled done m t (err x) e f l g = absurd g

  content_of-cons :
      (b : ℕ) (bs : Bytes) (rs : List Read) (coming : Bytes)
      → content_of (bytes (b ∷ bs) ∷ rs) ≡ some coming
      → (rest : Bytes) × (content_of rs ≡ some rest) × (coming ≡ (b ∷ bs) ++ rest)
  unfolding content_of
  content_of-cons b bs rs coming h = elim (Option-cases (content_of rs)) [
    | inl e ↦ cc (rw e at h)
    | inr (rest, e) ↦ (rest, e, sym (some-injective _ _ (rw e at h)))
  ]

  fill_loop-IsFilled :
      (done coming : Bytes) (rs : List Read) (m : Matcher)
      → m.reader ≡ rs
      → IsSound blake3 old src done coming m
      → IsFilled done m (fill_loop rs m)
  unfolding fill_loop
  fill_loop-IsFilled done coming [] m e s = elim (Bool-cases (is_short m)) [
    | inr q ↦ rw (q, IsFilled) (stays-Filled done coming m s q)
    | inl q ↦
        let c = still m coming s.source (is_reading m q) in
        rw (q, IsFilled)
          (ends-Filled done coming m m.reader s
            (unfold content_of in some-injective coming [] (sym c ∙ ap content_of e)) (omega arith))
  ]
  fill_loop-IsFilled done coming (bytes [] ∷ rs) m e s = elim (Bool-cases (is_short m)) [
    | inr q ↦ rw (q, IsFilled) (stays-Filled done coming m s q)
    | inl q ↦
        let c = still m coming s.source (is_reading m q) in
        let u : unread m.reader ≡ unread (bytes [] ∷ rs) = ap unread e in
        rw (q, IsFilled)
          (ends-Filled done coming m rs s
            (unfold content_of in some-injective coming [] (sym c ∙ ap content_of e))
            (unfold unread in omega (arith, u)))
  ]
  fill_loop-IsFilled done coming (fault k ∷ rs) m e s = elim (Bool-cases (is_short m)) [
    | inr q ↦ rw (q, IsFilled) (stays-Filled done coming m s q)
    | inl q ↦
        let c = still m coming s.source (is_reading m q) in
        let d : content_of (fault k ∷ rs) ≡ some coming = ap content_of (sym e) ∙ c in
        unfold content_of in cc (d)
  ]
  fill_loop-IsFilled done coming (bytes (b ∷ bs) ∷ rs) m e s = elim (Bool-cases (is_short m)) [
    | inr q ↦ rw (q, IsFilled) (stays-Filled done coming m s q)
    | inl q ↦
        let reading = is_reading m q in
        let c = still m coming s.source reading in
        let (rest, f, g) = content_of-cons b bs rs coming (ap content_of (sym e) ∙ c) in
        let t : Matcher = absorbed m rs (b ∷ bs) in
        let u : unread m.reader ≡ unread (bytes (b ∷ bs) ∷ rs) = ap unread e in
        let l = drop-append_le m.pos m.buffer (b ∷ bs) s.inside in
        rw (q, IsFilled)
          (then-IsFilled done m t (fill_loop rs t) refl refl
            (unfold unread in omega (arith, u, ap length l, length-append (ahead m) (b ∷ bs)))
            (fill_loop-IsFilled done rest rs t refl
              (absorbed-IsSound done coming rest m rs (b ∷ bs) s g reading f)))
  ]

  drained-IsSound :
      (done coming : Bytes) (m : Matcher)
      → IsSound blake3 old src done coming m
      → IsSound blake3 old src done coming (record m { buffer = drop m.pos m.buffer; pos = 0 })
  drained-IsSound done coming m s = record {
    positive = s.positive;
    inside = omega arith;
    whole = s.whole;
    hashed = s.hashed;
    source = s.source;
    fits = s.fits;
    run_fits = s.run_fits;
    exclusive = s.exclusive;
    known = s.known;
  }

  pub fill-IsFilled :
      (done coming : Bytes) (m : Matcher)
      → IsSound blake3 old src done coming m
      → IsFilled done m (fill m)
  unfolding fill drain_passed
  fill-IsFilled done coming m s = elim (Bool-cases (ltb read_ahead m.pos)) [
    | inl q ↦
        rw (q, IsFilled)
          (let t : Matcher = record m { buffer = drop m.pos m.buffer; pos = 0 } in
            then-IsFilled done m t (fill_loop m.reader t) refl refl (omega arith)
              (fill_loop-IsFilled done coming m.reader t refl (drained-IsSound done coming m s)))
    | inr q ↦ rw (q, IsFilled) (fill_loop-IsFilled done coming m.reader m refl s)
  ]
