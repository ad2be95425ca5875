-- ===== src/Remote/Matcher/Round.antt =====
-- crates/treesync/src/remote/delta.rs: the scan of `Matcher::step`, and its end.
use treesync.Prelude.{
  ℕ, zero, suc, ◌+◌, ◌-◌, ◌<◌, Bool, true, Bool-cases, Option, Option-cases, none, some, ◌≡◌, sym,
  ap, ◌∙◌, inl, inr, arith, leb, length,
}
use mathlib.Core.Path.{subst}
use treesync.FilePath.{Bytes}
use treesync.Remote.Rolling.{Rolling, roll}
use treesync.Remote.Matcher.{Matcher, literal_flush}
use treesync.Remote.Matcher.Move.{flush_literal, passed, byte_at, has_window}
use treesync.Remote.Matcher.Loop.{match_at, scan}
use treesync.Remote.Matcher.Sound.{IsSound, flush_run_if_no_literal-IsFlushed}
use treesync.Remote.Matcher.Window.{passed-IsSound, flush_literal-IsSettled, NoCollision}
use treesync.Remote.Matcher.Match.{Advances, matched-IsSound, has_window-le}

module _ (blake3 : Bytes → Bytes) (old src : Bytes) where
  -- Neither the carried checksum nor the mark of the end bears on what is owed.
  pub touch-IsSound :
      (done coming : Bytes) (m : Matcher) (rolling : Option Rolling) (finished : Bool)
      → IsSound blake3 old src done coming m
      → IsSound blake3 old src done coming (record m { rolling = rolling; finished = finished })
  touch-IsSound done coming m rolling finished s = record {
    positive = s.positive;
    inside = s.inside;
    whole = s.whole;
    hashed = s.hashed;
    source = s.source;
    fits = s.fits;
    run_fits = s.run_fits;
    exclusive = s.exclusive;
    known = s.known;
  }

  Advances-trans :
      (m r t : Matcher)
      → Advances blake3 old src m r
      → Advances blake3 old src r t
      → Advances blake3 old src m t
  Advances-trans m r t f g = record {
    same_buffer = g.same_buffer ∙ f.same_buffer;
    same_reader = g.same_reader ∙ f.same_reader;
    same_eof = g.same_eof ∙ f.same_eof;
    same_size = g.same_size ∙ f.same_size;
    same_finished = g.same_finished ∙ f.same_finished;
    further = omega (arith, f.further, g.further);
  }

  passed-Advances :
      (done coming : Bytes) (m : Matcher) (out : ℕ)
      → IsSound blake3 old src done coming m
      → Advances blake3 old src m (passed out m)
  unfolding passed
  passed-Advances done coming m out s =
      let (sound, closed, l, f) =
        flush_run_if_no_literal-IsFlushed blake3 old src done coming m s in
      record {
        same_buffer = f.same_buffer;
        same_reader = f.same_reader;
        same_eof = f.same_eof;
        same_size = f.same_size;
        same_finished = f.same_finished;
        further = omega (arith, f.same_pos);
      }

  -- What a scan from `m` comes to.
  abbrev pub IsScanned : Bytes → Bytes → Matcher → Option Matcher → Type 0
  IsScanned done coming m none = ⊥
  IsScanned done coming m (some r) =
      IsSound blake3 old src done coming r × Advances blake3 old src m r

  IsScanned-trans :
      (done coming : Bytes) (m r : Matcher) (o : Option Matcher)
      → Advances blake3 old src m r
      → IsScanned done coming r o
      → IsScanned done coming m o
  IsScanned-trans done coming m r none f h = absurd h
  IsScanned-trans done coming m r (some t) f (s, g) = (s, Advances-trans m r t f g)

  flushed-IsScanned :
      (done coming : Bytes) (m r : Matcher) (rolling : Option Rolling)
      → Advances blake3 old src m r
      → IsSound blake3 old src done coming r
      → IsScanned done coming m (some (record (flush_literal r) { rolling = rolling }))
  flushed-IsScanned done coming m r rolling g s =
      let (sound, none_left, run, f) = flush_literal-IsSettled blake3 old src done coming r s in
      (
        touch-IsSound done coming (flush_literal r) rolling (flush_literal r).finished sound,
        record {
          same_buffer = f.same_buffer ∙ g.same_buffer;
          same_reader = f.same_reader ∙ g.same_reader;
          same_eof = f.same_eof ∙ g.same_eof;
          same_size = f.same_size ∙ g.same_size;
          same_finished = f.same_finished ∙ g.same_finished;
          further = omega (arith, f.same_pos, g.further);
        },
      )

  marked-IsScanned :
      (done coming : Bytes) (m r : Matcher) (rolling : Option Rolling)
      → Advances blake3 old src m r
      → IsSound blake3 old src done coming r
      → IsScanned done coming m (some (record r { rolling = rolling }))
  marked-IsScanned done coming m r rolling g s = (
    touch-IsSound done coming r rolling r.finished s,
    record {
      same_buffer = g.same_buffer;
      same_reader = g.same_reader;
      same_eof = g.same_eof;
      same_size = g.same_size;
      same_finished = g.same_finished;
      further = g.further;
    },
  )

  pub scan-IsScanned :
      (done coming : Bytes) (fuel : ℕ) (rolling : Rolling) (m : Matcher)
      → NoCollision blake3 old src m.block_size
      → IsSound blake3 old src done coming m
      → has_window m ≡ true
      → length m.buffer - m.pos < fuel
      → IsScanned done coming m (scan blake3 fuel rolling m)
  unfolding scan
  scan-IsScanned done coming zero rolling m clash s h l = absurd (omega (arith, l))
  scan-IsScanned done coming (suc fuel) rolling m clash s h l =
      elim (Option-cases (match_at blake3 rolling m)) [
        | inr (block, e) ↦
            rw (e, IsScanned)
              (matched-IsSound blake3 old src done coming m rolling block clash s h e)
        | inl e ↦
            rw (e, IsScanned)
              (let inside = has_window-le blake3 old src m h s.inside in
                let out : ℕ = byte_at m.pos m.buffer in
                let r : Matcher = passed out m in
                let sound =
                  passed-IsSound blake3 old src done coming m s
                    (omega (arith, inside, s.positive)) in
                let g = passed-Advances done coming m out s in
                let rolled : Rolling =
                  roll rolling out (byte_at (r.pos + r.block_size - 1) r.buffer) in
                elim (Bool-cases (has_window r)) [
                  | inr q ↦ rw (q, IsScanned) (marked-IsScanned done coming m r none g sound)
                  | inl q ↦
                      rw (q, IsScanned)
                        (elim (Bool-cases (leb literal_flush (length r.literal))) [
                          | inl long ↦
                              rw (long, IsScanned)
                                (flushed-IsScanned done coming m r (some rolled) g sound)
                          | inr short ↦
                              rw (short, IsScanned)
                                (IsScanned-trans done coming m r _ g (
                                  scan-IsScanned done coming fuel rolled r
                                    (subst (NoCollision blake3 old src) (sym (g.same_size)) clash)
                                    sound q
                                    (omega (
                                      arith,
                                      l,
                                      g.further,
                                      ap length g.same_buffer,
                                      inside,
                                      s.positive,
                                    ))))
                        ])
                ])
      ]
