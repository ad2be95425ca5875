-- ===== src/Remote/Matcher/Deliver.antt =====
-- crates/treesync/src/remote/delta.rs: what `Matcher::next_token` gives, from a sound matcher.
use treesync.Prelude.{
  ℕ, zero, suc, ◌+◌, ◌≤◌, ◌<◌, List, [], ◌∷◌, ◌++◌, Bool, false, Option, none, some, ◌≡◌, refl, sym,
  ap, ◌∙◌, ◌⊎◌, inl, inr, arith, append-nil, append_assoc, All, if◌then◌else◌,
}
use mathlib.Core.Path.{subst}
use treesync.FilePath.{Bytes}
use treesync.Error.{Result, ok, err}
use treesync.Remote.Token.{Token}
use treesync.Remote.Token.Meaning.{bytes_of, all_bytes, Fits}
use treesync.Remote.Matcher.{Matcher, ahead}
use treesync.Remote.Matcher.Loop.{
  step, Next, token, ended, failed, stuck, after_step, next_loop, next_token, remaining,
}
use treesync.Remote.Matcher.Sound.{IsSound, run_bytes}
use treesync.Remote.Matcher.Window.{NoCollision}
use treesync.Remote.Matcher.Rebuild.{IsDone, IsStepped, step-IsStepped}

module _ (blake3 : Bytes → Bytes) (old src : Bytes) (size : ℕ) where
  -- Part of the source is still to be handed over, or all of it lies ready.
  abbrev pub IsOpen : Bytes → Matcher → Type 0
  IsOpen done m =
      ((m.finished ≡ false)
        × (m.block_size ≡ size)
        × (coming : Bytes) × IsSound blake3 old src done coming m)
      ⊎ IsDone blake3 old src done m

  -- What `next_token` gives: a token with content, and the source goes on behind it; or the end,
  -- once everything was handed over.
  abbrev pub IsNext : Bytes → Next → Type 0
  IsNext done (token t r) = Fits old t × IsOpen (done ++ bytes_of old t) r
  IsNext done (ended r) = (done ≡ src) × (r.hasher ≡ src)
  IsNext done (failed e) = ⊥
  IsNext done stuck = ⊥

  popped-IsSound :
      (done coming : Bytes) (m : Matcher) (t : Token) (ts : List Token)
      → IsSound blake3 old src done coming m
      → m.ready ≡ t ∷ ts
      → Fits old t
        × IsSound blake3 old src (done ++ bytes_of old t) coming (record m { ready = ts })
  popped-IsSound done coming m t ts s e =
      let (fit, rest) : Fits old t × All (Fits old) ts = subst (All (Fits old)) e s.fits in
      (
        fit,
        record {
          positive = s.positive;
          inside = s.inside;
          whole =
              append_assoc done (bytes_of old t) _
              ∙ ap (λ (x : Bytes). done ++ x)
                  (sym (append_assoc (bytes_of old t) (all_bytes old ts) _)
                    ∙ ap
                        (λ (x : List Token).
                          all_bytes old x
                          ++ (run_bytes blake3 old src m.run ++ (m.literal ++ (ahead m ++ coming))))
                        (sym e))
              ∙ s.whole;
          hashed = s.hashed;
          source = s.source;
          fits = rest;
          run_fits = s.run_fits;
          exclusive = s.exclusive;
          known = s.known;
        },
      )

  popped-IsDone :
      (done : Bytes) (m : Matcher) (t : Token) (ts : List Token)
      → IsDone blake3 old src done m
      → m.ready ≡ t ∷ ts
      → Fits old t × IsDone blake3 old src (done ++ bytes_of old t) (record m { ready = ts })
  popped-IsDone done m t ts d e =
      let (fit, rest) : Fits old t × All (Fits old) ts = subst (All (Fits old)) e d.all_fit in
      (
        fit,
        record {
          at_end = d.at_end;
          all_there =
              append_assoc done (bytes_of old t) (all_bytes old ts)
              ∙ ap (λ (x : List Token). done ++ all_bytes old x) (sym e)
              ∙ d.all_there;
          all_hashed = d.all_hashed;
          all_fit = rest;
        },
      )

  popped-IsOpen :
      (done : Bytes) (m : Matcher) (t : Token) (ts : List Token)
      → IsOpen done m
      → m.ready ≡ t ∷ ts
      → IsNext done (token t (record m { ready = ts }))
  popped-IsOpen done m t ts (inl (q, z, coming, s)) e =
      let (fit, sound) = popped-IsSound done coming m t ts s e in (fit, inl (q, z, coming, sound))
  popped-IsOpen done m t ts (inr d) e = let (fit, r) = popped-IsDone done m t ts d e in (fit, inr r)

  -- The rounds that the loop may need.
  abbrev Enough : ℕ → Matcher → Type 0
  Enough fuel m = (m.finished ≡ false → remaining m + 1 < fuel) × (1 ≤ fuel)

  ready-cases :
      (m : Matcher) → (m.ready ≡ []) ⊎ ((t : Token) × (ts : List Token) × (m.ready ≡ t ∷ ts))
  ready-cases m = go m.ready
    where
      go : (xs : List Token) → (xs ≡ []) ⊎ ((t : Token) × (ts : List Token) × (xs ≡ t ∷ ts))
      go [] = inl refl
      go (t ∷ ts) = inr (t, ts, refl)

  done-ends :
      (done : Bytes) (m : Matcher)
      → IsDone blake3 old src done m
      → m.ready ≡ []
      → IsNext done (ended m)
  done-ends done m d e = (
    sym (append-nil done) ∙ ap (λ (x : List Token). done ++ all_bytes old x) (sym e) ∙ d.all_there,
    d.all_hashed,
  )

  stepped-IsNext :
      (done : Bytes) (fuel : ℕ) (m : Matcher)
      → ((r : Matcher) → IsOpen done r → Enough fuel r → IsNext done (next_loop blake3 fuel r))
      → (r : Result (Option Matcher)) → IsStepped blake3 old src done m r
      → m.block_size ≡ size
      → remaining m + 1 < suc fuel
      → IsNext done (after_step r (λ t. next_loop blake3 fuel t))
  unfolding after_step
  stepped-IsNext done fuel m more (err e) s z l = absurd s
  stepped-IsNext done fuel m more (ok none) s z l = absurd s
  stepped-IsNext done fuel m more (ok (some r)) (inl d) z l =
      more r (inr d) (λ q. cc (q, d.at_end), omega (arith, l))
  stepped-IsNext done fuel m more (ok (some r)) (inr (q, w, k, coming, s)) z l =
      more r (inl (q, w ∙ z, coming, s)) (λ p. omega (arith, l, k), omega (arith, l, k))

  otherwise : (b : Bool) (x y : Next) → b ≡ false → (if b then x else y) ≡ y
  otherwise b x y e = ground (arith, e)

  next_loop-IsNext :
      (done : Bytes) (fuel : ℕ) (m : Matcher)
      → NoCollision blake3 old src size
      → IsOpen done m
      → Enough fuel m
      → IsNext done (next_loop blake3 fuel m)
  unfolding next_loop
  next_loop-IsNext done zero m clash o l = absurd (omega (arith, l.1))
  next_loop-IsNext done (suc fuel) m clash o l = elim (ready-cases m) [
    | inr (t, ts, e) ↦ rw (e, IsNext) (popped-IsOpen done m t ts o e)
    | inl e ↦
        rw (e, IsNext)
          (elim o [
            | inr d ↦ rw (d.at_end, IsNext) (done-ends done m d e)
            | inl (q, z, coming, s) ↦
                subst (IsNext done) (sym (otherwise m.finished (ended m) _ q)) (
                  stepped-IsNext done fuel m (λ r p k. next_loop-IsNext done fuel r clash p k)
                    (step blake3 m)
                    (step-IsStepped blake3 old src done coming m
                      (subst (NoCollision blake3 old src) (sym z) clash) q s)
                    z (l.0 q))
          ])
  ]

  pub next_token-IsNext :
      (done : Bytes) (m : Matcher)
      → NoCollision blake3 old src size
      → IsOpen done m
      → IsNext done (next_token blake3 m)
  unfolding next_token
  next_token-IsNext done m clash o =
      next_loop-IsNext done (suc (suc (remaining m))) m clash o (λ q. omega arith, omega arith)
