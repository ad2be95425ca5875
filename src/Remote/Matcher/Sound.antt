-- ===== src/Remote/Matcher/Sound.antt =====
-- crates/treesync/src/remote/delta.rs: what a `Matcher` owes its caller, and each of its moves.
use treesync.Prelude.{
  ℕ, ◌+◌, ◌*◌, ◌≤◌, List, [], ◌∷◌, ◌++◌, Bool, true, false, Option, Option-cases, none, some, ◌≡◌,
  refl, sym, ap, ◌∙◌, ◌⊎◌, inl, inr, arith, length, drop, get_elem?, append_assoc, All, nat_eq,
}
use mathlib.Core.Path.{subst}
use treesync.FilePath.{Bytes}
use treesync.Remote.Signature.{strong}
use treesync.Remote.Token.{copy}
use treesync.Remote.Token.Meaning.{range, all_bytes, Fits, all_bytes-snoc, All-snoc}
use treesync.Remote.Matcher.{Read, bytes, fault, Matcher, ahead}
use treesync.Remote.Matcher.Move.{flush_run, flush_run_if_no_literal}

-- What the reads give in all, up to the end of the source; none if one of them fails before.
unfoldable pub content_of : List Read → Option Bytes
content_of [] = some []
content_of (bytes [] ∷ rs) = some []
content_of (bytes (b ∷ bs) ∷ rs) = elim (content_of rs) [
  | none ↦ none
  | some c ↦ some (b ∷ (bs ++ c))
]
content_of (fault k ∷ rs) = none

-- What is still to be read.
abbrev pub Coming : Bool → List Read → Bytes → Type 0
Coming true rs coming = coming ≡ []
Coming false rs coming = content_of rs ≡ some coming

module _ (blake3 : Bytes → Bytes) (old src : Bytes) where
  abbrev pub run_bytes : Option (ℕ × ℕ) → Bytes
  run_bytes none = []
  run_bytes (some (offset, len)) = range old offset len

  -- What the tokens, the open run and the literal stand for, in front of `rest`.
  abbrev pub produced : Matcher → Bytes → Bytes
  produced m rest = all_bytes old m.ready ++ (run_bytes m.run ++ (m.literal ++ rest))

  abbrev pub RunFits : Option (ℕ × ℕ) → Type 0
  RunFits none = Unit
  RunFits (some (offset, len)) = (offset + len ≤ length old) × (1 ≤ len)

  -- A hash of the signature is that of a block that the old file has.
  abbrev pub IsBlock : ℕ → ℕ → Bytes → Type 0
  IsBlock block_size i h =
      (i * block_size + block_size ≤ length old)
      × (h ≡ strong blake3 (range old (i * block_size) block_size))

  -- Of the source, `done` was handed out, `coming` is still to be read, and the rest is accounted
  -- for by what the matcher holds.
  pub record IsSound (done coming : Bytes) (m : Matcher) : Type 0 where
    pub positive : 1 ≤ m.block_size
    pub inside : m.pos ≤ length m.buffer
    pub whole : done ++ produced m (ahead m ++ coming) ≡ src
    pub hashed : m.hasher ++ coming ≡ src
    pub source : Coming m.eof m.reader coming
    pub fits : All (Fits old) m.ready
    pub run_fits : RunFits m.run
    pub exclusive : (m.run ≡ none) ⊎ (m.literal ≡ [])
    pub known : (i : ℕ) (h : Bytes) → get_elem? m.strong i ≡ some h → IsBlock m.block_size i h

  abbrev pub with_run : Matcher → ℕ → ℕ → Matcher
  with_run m offset len = record m { run = none; ready = m.ready ++ (copy offset len ∷ []) }

  pub flush_run-none : (m : Matcher) → m.run ≡ none → flush_run m ≡ m
  unfolding flush_run
  flush_run-none m e = ground (arith, e)

  pub flush_run-some : (m : Matcher) (o l : ℕ) → m.run ≡ some (o, l) → flush_run m ≡ with_run m o l
  unfolding flush_run
  flush_run-some m o l e = ground (arith, e)

  pub with_run-IsSound :
      (done coming : Bytes) (m : Matcher) (o l : ℕ)
      → IsSound done coming m
      → m.run ≡ some (o, l)
      → IsSound done coming (with_run m o l)
  with_run-IsSound done coming m o l s e = record {
    positive = s.positive;
    inside = s.inside;
    whole =
        ap (λ (x : Bytes). done ++ x)
          (all_bytes-snoc old m.ready (copy o l) (m.literal ++ (ahead m ++ coming))
            ∙ ap
                (λ (r : Option (ℕ × ℕ)).
                  all_bytes old m.ready ++ (run_bytes r ++ (m.literal ++ (ahead m ++ coming))))
                (sym e))
        ∙ s.whole;
    hashed = s.hashed;
    source = s.source;
    fits = All-snoc (Fits old) m.ready (copy o l) s.fits (subst RunFits e s.run_fits);
    run_fits = tt;
    exclusive = inl refl;
    known = s.known;
  }

  -- What a flush leaves as it is.
  pub record SameSource (m r : Matcher) : Type 0 where
    pub same_buffer : r.buffer ≡ m.buffer
    pub same_pos : r.pos ≡ m.pos
    pub same_reader : r.reader ≡ m.reader
    pub same_eof : r.eof ≡ m.eof
    pub same_size : r.block_size ≡ m.block_size
    pub same_strong : r.strong ≡ m.strong
    pub same_finished : r.finished ≡ m.finished

  pub SameSource-refl : (m : Matcher) → SameSource m m
  SameSource-refl m = record {
    same_buffer = refl;
    same_pos = refl;
    same_reader = refl;
    same_eof = refl;
    same_size = refl;
    same_strong = refl;
    same_finished = refl;
  }

  -- A matcher after a flush of the run.
  abbrev pub IsFlushed : Bytes → Bytes → Matcher → Matcher → Type 0
  IsFlushed done coming m r =
      IsSound done coming r × (r.run ≡ none) × (r.literal ≡ m.literal) × SameSource m r

  pub flush_run-IsFlushed :
      (done coming : Bytes) (m : Matcher)
      → IsSound done coming m
      → IsFlushed done coming m (flush_run m)
  flush_run-IsFlushed done coming m s = elim (Option-cases m.run) [
    | inl e ↦
        subst (IsFlushed done coming m) (sym (flush_run-none m e)) (s, e, refl, SameSource-refl m)
    | inr ((o, l), e) ↦ subst (IsFlushed done coming m) (sym (flush_run-some m o l e)) (
      with_run-IsSound done coming m o l s e,
      refl,
      refl,
      record {
        same_buffer = refl;
        same_pos = refl;
        same_reader = refl;
        same_eof = refl;
        same_size = refl;
        same_strong = refl;
        same_finished = refl;
      },
    )
  ]

  pub List-cases : (xs : Bytes) → (xs ≡ []) ⊎ ((x : ℕ) × (ys : Bytes) × (xs ≡ x ∷ ys))
  List-cases [] = inl refl
  List-cases (x ∷ xs) = inr (x, xs, refl)

  no_literal : (m : Matcher) → m.literal ≡ [] → flush_run_if_no_literal m ≡ flush_run m
  unfolding flush_run_if_no_literal
  no_literal m e = ground (arith, e)

  some_literal :
      (m : Matcher) (b : ℕ) (bs : Bytes) → m.literal ≡ b ∷ bs → flush_run_if_no_literal m ≡ m
  unfolding flush_run_if_no_literal
  some_literal m b bs e = ground (arith, e)

  no_run :
      (m : Matcher) (b : ℕ) (bs : Bytes)
      → (m.run ≡ none) ⊎ (m.literal ≡ [])
      → m.literal ≡ b ∷ bs
      → m.run ≡ none
  no_run m b bs (inl e) q = e
  no_run m b bs (inr e) q = cc (e, q)

  pub flush_run_if_no_literal-IsFlushed :
      (done coming : Bytes) (m : Matcher)
      → IsSound done coming m
      → IsFlushed done coming m (flush_run_if_no_literal m)
  flush_run_if_no_literal-IsFlushed done coming m s = elim (List-cases m.literal) [
    | inl e ↦
        subst (IsFlushed done coming m) (sym (no_literal m e)) (flush_run-IsFlushed done coming m s)
    | inr (b, bs, e) ↦
        subst (IsFlushed done coming m) (sym (some_literal m b bs e))
          (s, no_run m b bs s.exclusive e, refl, SameSource-refl m)
  ]

  -- The literal takes what comes next, with no run open.
  pub literal-IsSound :
      (done coming : Bytes) (m : Matcher) (xs : Bytes) (p : ℕ)
      → IsSound done coming m
      → m.run ≡ none
      → p ≤ length m.buffer
      → ahead m ≡ xs ++ drop p m.buffer
      → IsSound done coming (record m { literal = m.literal ++ xs; pos = p })
  literal-IsSound done coming m xs p s e h q = record {
    positive = s.positive;
    inside = h;
    whole =
        ap (λ (x : Bytes). done ++ (all_bytes old m.ready ++ (run_bytes m.run ++ x)))
          (append_assoc m.literal xs (drop p m.buffer ++ coming)
            ∙ ap (λ (x : Bytes). m.literal ++ x)
                (sym (append_assoc xs (drop p m.buffer) coming)
                  ∙ ap (λ (x : Bytes). x ++ coming) (sym q)))
        ∙ s.whole;
    hashed = s.hashed;
    source = s.source;
    fits = s.fits;
    run_fits = s.run_fits;
    exclusive = inl e;
    known = s.known;
  }
