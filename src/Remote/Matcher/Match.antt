-- ===== src/Remote/Matcher/Match.antt =====
-- crates/treesync/src/remote/delta.rs: `Matcher` at a window that matches, and at the tail.
use treesync.Prelude.{
  ℕ, ◌+◌, ◌*◌, ◌≤◌, ◌<◌, List, [], ◌∷◌, ◌++◌, true, false, Bool-cases, Option, Option-cases, none,
  some, ◌≡◌, refl, sym, ap, ap₂, ◌∙◌, inl, inr, arith, length, take, drop, get_elem?, take_add,
  drop-drop, take-append-drop, length-take_le, length-drop, append_assoc, ◌==◌, nat_eq, list_eq,
  beq→eq,
}
use mathlib.Core.Path.{subst}
use mathlib.Core.Option.{some-injective}
use treesync.FilePath.{Bytes}
use treesync.Remote.Rolling.{Rolling}
use treesync.Remote.Token.Meaning.{range, all_bytes}
use treesync.Remote.Matcher.{Matcher, ahead}
use treesync.Remote.Matcher.Move.{flush_run, flush_literal, extend_run, matched, has_window}
use treesync.Remote.Matcher.Loop.{first_match, match_at}
use treesync.Remote.Matcher.Sound.{
  IsSound, SameSource, with_run, with_run-IsSound, flush_run-some, produced, run_bytes,
}
use treesync.Remote.Matcher.Window.{
  advanced-IsSound, IsWindow, flush_literal-IsSettled, NoCollision,
}

range_add :
    (old : Bytes) (start len more : ℕ)
    → range old start (len + more) ≡ range old start len ++ range old (start + len) more
range_add old start len more =
    take_add len more (drop start old)
    ∙ ap (λ (x : Bytes). take len (drop start old) ++ take more x) (drop-drop len start old)

module _ (blake3 : Bytes → Bytes) (old src : Bytes) where
  -- The window moves behind the block.
  abbrev moved : Matcher → Matcher
  moved r = record r { pos = r.pos + r.block_size; rolling = none }

  abbrev IsExtended : Bytes → Bytes → Matcher → Matcher → Type 0
  IsExtended done coming m r =
      IsSound blake3 old src done coming (moved r) × SameSource blake3 old src m r

  opened :
      (m : Matcher) (block : ℕ)
      → m.run ≡ none
      → extend_run block m ≡ record m { run = some (block * m.block_size, m.block_size) }
  unfolding extend_run
  opened m block e = ground (arith, e)

  grown :
      (m : Matcher) (block start len : ℕ)
      → m.run ≡ some (start, len)
      → (start + len == block * m.block_size) ≡ true
      → extend_run block m ≡ record m { run = some (start, len + m.block_size) }
  unfolding extend_run
  grown m block start len e q = rw e (rw q)

  jumped :
      (m : Matcher) (block start len : ℕ)
      → m.run ≡ some (start, len)
      → (start + len == block * m.block_size) ≡ false
      → extend_run block m
        ≡ record (flush_run m) { run = some (block * m.block_size, m.block_size) }
  unfolding extend_run
  jumped m block start len e q = rw e (rw q)

  same : (m : Matcher) (run : Option (ℕ × ℕ)) → SameSource blake3 old src m (record m { run = run })
  same m run = record {
    same_buffer = refl;
    same_pos = refl;
    same_reader = refl;
    same_eof = refl;
    same_size = refl;
    same_strong = refl;
    same_finished = refl;
  }

  opened-IsExtended :
      (done coming : Bytes) (m : Matcher) (block : ℕ)
      → IsSound blake3 old src done coming m
      → IsWindow blake3 old src m block
      → m.literal ≡ []
      → m.run ≡ none
      → IsExtended done coming m (record m { run = some (block * m.block_size, m.block_size) })
  opened-IsExtended done coming m block s w l e = (
    advanced-IsSound blake3 old src done coming m block _ s w l
        (ap
          (λ (r : Option (ℕ × ℕ)).
            run_bytes blake3 old src r ++ range old (block * m.block_size) m.block_size)
          (sym e))
        (w.0, s.positive),
    same m _,
  )

  extend_run-IsExtended :
      (done coming : Bytes) (m : Matcher) (block : ℕ)
      → IsSound blake3 old src done coming m
      → IsWindow blake3 old src m block
      → m.literal ≡ []
      → IsExtended done coming m (extend_run block m)
  extend_run-IsExtended done coming m block s w l = elim (Option-cases m.run) [
    | inl e ↦
        subst (IsExtended done coming m) (sym (opened m block e))
          (opened-IsExtended done coming m block s w l e)
    | inr ((start, len), e) ↦ elim (Bool-cases (start + len == block * m.block_size)) [
      | inl q ↦
          let at : start + len ≡ block * m.block_size =
            beq→eq (start + len) (block * m.block_size) q in
          subst (IsExtended done coming m) (sym (grown m block start len e q)) (
            advanced-IsSound blake3 old src done coming m block (some (start, len + m.block_size)) s
                w l
                (range_add old start len m.block_size
                  ∙ ap₂
                      (λ (r : Option (ℕ × ℕ)) (o : ℕ).
                        run_bytes blake3 old src r ++ range old o m.block_size)
                      (sym e) at)
                (omega (arith, at, w.0), omega (arith, s.positive)),
            same m _,
          )
      | inr q ↦
          subst (IsExtended done coming m)
            (sym (
              jumped m block start len e q
              ∙ ap (λ (r : Matcher). record r { run = some (block * m.block_size, m.block_size) })
                  (flush_run-some blake3 old src m start len e)))
            (
              (opened-IsExtended done coming (with_run blake3 old src m start len) block
                  (with_run-IsSound blake3 old src done coming m start len s e) w l refl).0,
              record {
                same_buffer = refl;
                same_pos = refl;
                same_reader = refl;
                same_eof = refl;
                same_size = refl;
                same_strong = refl;
                same_finished = refl;
              },
            )
    ]
  ]

  first_match-known :
      (strongs : List Bytes) (hash : Bytes) (is : List ℕ) (i : ℕ)
      → first_match strongs hash is ≡ some i
      → get_elem? strongs i ≡ some hash
  unfolding first_match
  first_match-known strongs hash [] i h = cc
  first_match-known strongs hash (j ∷ is) i h = elim (Option-cases (get_elem? strongs j)) [
    | inl e ↦ first_match-known strongs hash is i (rw (e, first_match) at h)
    | inr (g, e) ↦ elim (Bool-cases (g == hash)) [
      | inl q ↦
          let same : j ≡ i = some-injective j i (rw (e, first_match, q) at h) in
          subst (λ (k : ℕ). get_elem? strongs k ≡ some hash) same (e ∙ ap some (beq→eq g hash q))
      | inr q ↦ first_match-known strongs hash is i (rw (e, first_match, q) at h)
    ]
  ]

  -- All that the matcher stands for in front of its window.
  before : Bytes → Matcher → Bytes
  before done m = done ++ (all_bytes old m.ready ++ (run_bytes blake3 old src m.run ++ m.literal))

  split_at_window :
      (done : Bytes) (m : Matcher) (rest : Bytes)
      → before done m ++ rest ≡ done ++ produced blake3 old src m rest
  unfolding before
  split_at_window done m rest =
      append_assoc done _ rest
      ∙ ap (λ (x : Bytes). done ++ x)
          (append_assoc (all_bytes old m.ready) _ rest
            ∙ ap (λ (x : Bytes). all_bytes old m.ready ++ x)
                (append_assoc (run_bytes blake3 old src m.run) m.literal rest))

  window_parts :
      (m : Matcher) → ahead m ≡ take m.block_size (ahead m) ++ drop (m.pos + m.block_size) m.buffer
  window_parts m =
      sym (take-append-drop m.block_size (ahead m))
      ∙ ap (λ (x : Bytes). take m.block_size (ahead m) ++ x) (drop-drop m.block_size m.pos m.buffer)

  pub has_window-le :
      (m : Matcher)
      → has_window m ≡ true
      → m.pos ≤ length m.buffer
      → m.pos + m.block_size ≤ length m.buffer
  has_window-le m h k = ground (arith, h)

  match_at-IsWindow :
      (done coming : Bytes) (m : Matcher) (rolling : Rolling) (block : ℕ)
      → NoCollision blake3 old src m.block_size
      → IsSound blake3 old src done coming m
      → has_window m ≡ true
      → match_at blake3 rolling m ≡ some block
      → IsWindow blake3 old src m block
  unfolding match_at
  match_at-IsWindow done coming m rolling block clash s h e =
      let inside = has_window-le m h s.inside in
      let (fits, same) = s.known block _ (first_match-known m.strong _ _ block e) in
      let w : Bytes = take m.block_size (ahead m) in
      let rest : Bytes = drop (m.pos + m.block_size) m.buffer in
      let split : before done m ++ (w ++ (rest ++ coming)) ≡ src =
        split_at_window done m (w ++ (rest ++ coming))
        ∙ ap (λ (x : Bytes). done ++ produced blake3 old src m x)
            (sym (append_assoc w rest coming)
              ∙ ap (λ (x : Bytes). x ++ coming) (sym (window_parts m)))
        ∙ s.whole in
      let long : length w ≡ m.block_size =
        length-take_le m.block_size (ahead m) (omega (arith, length-drop m.pos m.buffer, inside)) in
      let found = clash (before done m) w (rest ++ coming) block split long fits same in
      (fits, window_parts m ∙ ap (λ (x : Bytes). x ++ rest) found, inside)

  -- The window has moved on in the same buffer.
  pub record Advances (m r : Matcher) : Type 0 where
    pub same_buffer : r.buffer ≡ m.buffer
    pub same_reader : r.reader ≡ m.reader
    pub same_eof : r.eof ≡ m.eof
    pub same_size : r.block_size ≡ m.block_size
    pub same_finished : r.finished ≡ m.finished
    pub further : m.pos < r.pos

  pub matched-IsSound :
      (done coming : Bytes) (m : Matcher) (rolling : Rolling) (block : ℕ)
      → NoCollision blake3 old src m.block_size
      → IsSound blake3 old src done coming m
      → has_window m ≡ true
      → match_at blake3 rolling m ≡ some block
      → IsSound blake3 old src done coming (matched block m) × Advances m (matched block m)
  unfolding matched
  matched-IsSound done coming m rolling block clash s h e =
      let (sound, none_left, run, f) = flush_literal-IsSettled blake3 old src done coming m s in
      let r : Matcher = flush_literal m in
      let w : IsWindow blake3 old src r block =
        rw (f.same_size, f.same_pos, f.same_buffer)
          (match_at-IsWindow done coming m rolling block clash s h e) in
      let (moves, g) = extend_run-IsExtended done coming r block sound w none_left in
      (
        moves,
        record {
          same_buffer = g.same_buffer ∙ f.same_buffer;
          same_reader = g.same_reader ∙ f.same_reader;
          same_eof = g.same_eof ∙ f.same_eof;
          same_size = g.same_size ∙ f.same_size;
          same_finished = g.same_finished ∙ f.same_finished;
          further = omega (arith, g.same_pos, f.same_pos, g.same_size, f.same_size, s.positive);
        },
      )
