-- ===== src/Remote/Agent/Delivered.antt =====
-- crates/treesync/src/remote/ssh.rs and agent.rs: `send_patch` and `receive_patch` together.
use treesync.Prelude.{
  ℕ, ◌-◌, ◌^◌, ◌≤◌, ◌<◌, List, [], ◌∷◌, ◌++◌, Bool, true, false, Option, none, some, ◌≡◌, refl, sym,
  ap, ◌∙◌, arith, length, take, drop, take-append-drop, All, ◌==◌, list_eq, nat_eq, beq_refl,
}
use mathlib.Core.Path.{subst}
use mathlib.Core.Option.{some-injective}
use treesync.FilePath.{Bytes}
use treesync.Error.{Error, Result, ok, err}
use treesync.Remote.Wire.{WireTime, wire_time, into_system_time}
use treesync.Remote.Wire.Time.{IsNear, time-roundtrip}
use treesync.Prelude.Int.{ℤ}
use treesync.Remote.Token.{Token, copy, literal, commit, abort}
use treesync.Remote.Token.Meaning.{all_bytes, Fits}
use treesync.Remote.Frame.{max_frame, Codec, Zstd, Stream}
use treesync.Remote.Frame.RoundTrip.{at}
use treesync.Remote.Message.{Response, done}
use treesync.Remote.Signature.{signature_of}
use treesync.Remote.Matcher.{Matcher, Read, new}
use treesync.Remote.Matcher.Sound.{content_of}
use treesync.Remote.Matcher.Window.{NoCollision}
use treesync.Remote.Matcher.Whole.{all_tokens-rebuild}
use treesync.Remote.Sender.{send_loop, transfer, write_frames}
use treesync.Remote.Sender.Trim.{all_to_send, all_to_send-drop, send_loop-all_tokens}
use treesync.Remote.Agent.{Disk, Os, regular, answer, date, set_file_mtime, rename}
use treesync.Remote.Agent.Frames.{token_ends, Received, finished}
use treesync.Remote.Agent.Aligned.{fold, fold-snoc, snoc, map_received, recorded, receive-recorded}
use treesync.Remote.Agent.Written.{IsTransfer, recorded-written}
use treesync.Remote.Agent.Patch.{
  Patch, take_token, open_patch, and_rename, publish, if_same, commit_from, commit_patch,
  end_transfer, conclude, receive_patch,
}
use treesync.Remote.Agent.Committed.{IsPublished, publish-IsPublished}
use treesync.Remote.Agent.Publish.{restore_mode-destination}
use treesync.Remote.Agent.Obliging.{IsObliging, answer-none}
use treesync.Remote.Agent.Ahead.{IsAhead, fold-IsAhead}
use treesync.Remote.Agent.Start.{Resumes, open_patch-IsAhead}
use treesync.Remote.Agent.Copied.{Holds}

token_ends-Fits : (old : Bytes) (t : Token) → Fits old t → token_ends t ≡ false
unfolding token_ends
token_ends-Fits old (copy offset len) f = refl
token_ends-Fits old (literal bs) f = refl
token_ends-Fits old (commit mtime hash) f = absurd f
token_ends-Fits old (abort reason) f = absurd f

snoc-IsTransfer :
    (old : Bytes) (ts : List Token) (mtime : WireTime) (hash : Bytes)
    → All (Fits old) ts
    → IsTransfer token_ends (snoc (commit mtime hash) ts)
snoc-IsTransfer old [] mtime hash h = unfold token_ends in refl
snoc-IsTransfer old (t ∷ []) mtime hash (f, fs) =
    (token_ends-Fits old t f, unfold token_ends in refl)
snoc-IsTransfer old (t ∷ u ∷ ts) mtime hash (f, fs) =
    (token_ends-Fits old t f, snoc-IsTransfer old (u ∷ ts) mtime hash fs)

-- A reply without an error, the stream behind the transfer, and the source at the destination.
abbrev pub IsDelivery : Bytes → ℤ → Stream → Result Response × Stream × Disk → Type 0
IsDelivery src modified rest (response, s, r) =
    (response ≡ ok done) × (s ≡ rest) × (r.destination ≡ some (regular src (some modified)))

module _ (os : Os) (old : Bytes) (nice : IsObliging os old) (blake3 : Bytes → Bytes) where
  publish_lem : (mtime : WireTime) (d : Disk) → (publish os mtime d).0 ≡ ok tt
  unfolding publish set_file_mtime and_rename rename
  publish_lem mtime d = rw (
    nice.can_flush d,
    nice.can_date d,
    nice.can_rename (record d { temporary = date (into_system_time mtime) d.temporary }),
    publish,
    set_file_mtime,
    and_rename,
    rename,
    answer,
  )

  -- The answer, and what the destination is.
  abbrev Delivered : Bytes → WireTime → Result (Unit {0}) × Disk → Type 0
  Delivered src mtime w =
      (w.0 ≡ ok tt) × (w.1.destination ≡ some (regular src (some (into_system_time mtime))))

  publish-Delivered :
      (src : Bytes) (mtime : WireTime) (d : Disk)
      → Holds d src
      → Delivered src mtime (publish os mtime d)
  publish-Delivered src mtime d t =
      go (publish os mtime d) (publish_lem mtime d) (publish-IsPublished os d src mtime t)
    where
      go :
          (w : Result (Unit {0}) × Disk)
          → w.0 ≡ ok tt
          → IsPublished d src mtime w
          → Delivered src mtime w
      go (ok u, r) e h = (e, h.0)
      go (err x, r) e h = absurd (cc e)

  commit_from-Delivered :
      (src : Bytes) (mtime : WireTime) (failure : Option Error)
      (committed : Option (WireTime × Bytes))
      → (opened : Bool) (hasher : Bytes) (d : Disk) → failure ≡ none
      → committed ≡ some (mtime, blake3 src)
      → opened ≡ true
      → hasher ≡ src
      → Holds d src
      → Delivered src mtime (commit_from os blake3 failure committed opened hasher d)
  unfolding commit_from
  commit_from-Delivered src mtime (some e) committed opened hasher d f c o h t = absurd (cc f)
  commit_from-Delivered src mtime none none opened hasher d f c o h t = absurd (cc c)
  commit_from-Delivered src mtime none (some (m, expected)) false hasher d f c o h t = absurd (cc o)
  commit_from-Delivered src mtime none (some (m, expected)) true hasher d f c o h t =
      let same : (m, expected) ≡ (mtime, blake3 src) = some-injective _ _ c in
      let matches : (blake3 hasher == expected) ≡ true =
        ap (λ (x : Bytes). blake3 x == expected) h
        ∙ ap (λ (x : WireTime × Bytes). blake3 src == x.1) same
        ∙ beq_refl (blake3 src) in
      subst (λ (b : Bool). Delivered src mtime (if_same b (publish os m d) d)) (sym matches)
        (unfold if_same in
          subst (λ (x : WireTime × Bytes). Delivered src mtime (publish os x.0 d)) (sym same)
            (publish-Delivered src mtime d t))

  end_transfer-Delivered :
      (src : Bytes) (mtime : WireTime) (original : Option ℕ) (w : Result (Unit {0}) × Disk)
      → Delivered src mtime w
      → ((end_transfer os original w).0 ≡ ok done)
        × ((end_transfer os original w).1.destination
            ≡ some (regular src (some (into_system_time mtime))))
  unfolding end_transfer
  end_transfer-Delivered src mtime original (ok u, r) (e, h) =
      (refl, restore_mode-destination os original r ∙ h)
  end_transfer-Delivered src mtime original (err x, r) (e, h) = absurd (cc e)

  conclude-IsDelivery :
      (src : Bytes) (mtime : WireTime) (original : Option ℕ) (p : Patch) (rest : Stream)
      → IsAhead src p
      → IsDelivery src (into_system_time mtime) rest (
          conclude os blake3 original
            (finished (record p { committed = some (mtime, blake3 src) }), rest))
  unfolding conclude commit_patch
  conclude-IsDelivery src mtime original p rest a =
      let (e, h) = end_transfer-Delivered src mtime original _ (
        commit_from-Delivered src mtime p.failure (some (mtime, blake3 src)) p.opened p.hasher
          p.disk a.no_failure refl a.is_open a.hashed a.held) in
      (e, refl, h)

  pub received-IsDelivery :
      (codec : Codec Token) (zstd : Zstd) (n : ℕ) (src : Bytes) (mtime : WireTime) (us : List Token)
      → (s rest : Stream) (d : Disk) → length old < 2 ^ 64
      → Resumes n d (take n src)
      → All (Fits old) us
      → all_bytes old us ≡ drop n src
      → recorded codec zstd token_ends s ≡ (finished (snoc (commit mtime (blake3 src)) us), rest)
      → IsDelivery src
          (into_system_time mtime)
          rest
          (receive_patch codec zstd blake3 os (ok tt) n s d)
  unfolding receive_patch
  received-IsDelivery codec zstd n src mtime us s rest d small resumes fits same read =
      let (p, original) = open_patch os n (answer (os.makes_parent d)) d in
      let take_next = take_token os (os.existing d) in
      let ready : IsAhead (take n src) p =
        subst (λ (a : Result (Unit {0})). IsAhead (take n src) (open_patch os n a d).0)
          (sym (answer-none _ (nice.can_make_parent d)))
          (open_patch-IsAhead os old nice n d (take n src) resumes) in
      let built : IsAhead src (fold take_next p us) =
        subst (λ (x : Bytes). IsAhead x (fold take_next p us))
          (ap (λ (x : Bytes). take n src ++ x) same ∙ take-append-drop n src)
          (subst
            (λ (o : Option Bytes).
              IsAhead (take n src ++ all_bytes old us) (fold (take_token os o) p us))
            (sym (nice.reads_as d))
            (fold-IsAhead os old nice small (take n src) us p fits ready)) in
      subst
        (λ (r : Received Patch × Stream).
          IsDelivery src (into_system_time mtime) rest (conclude os blake3 original r))
        (sym (
          receive-recorded codec zstd token_ends take_next s p
          ∙ ap (map_received (fold take_next p)) read
          ∙ ap (λ (q : Patch). (finished q, rest))
              (fold-snoc take_next p us (commit mtime (blake3 src)))))
        (unfold take_token in
          conclude-IsDelivery src mtime original (fold take_next p us) rest built)

-- A patch from end to end: the source is matched against the signature of the old file, its tokens
-- cross the stream as frames, and the agent takes them. Then the agent answers `Ok`, the stream
-- stands behind the transfer, and the destination holds the bytes of the source with its timestamp,
-- for a fresh transfer and for one that resumes behind a part of the source. Every call of the
-- system succeeds, and the destination reads as the old file, which is below the range of a `u64`;
-- the timestamp is less than 2 ^ 64 nanoseconds from the epoch;
-- `bincode` decodes what it encoded and `zstd` expands what it compressed; the block is a byte at
-- least, and no window of the source has the strong hash of a block that it differs from.
pub patch-delivers :
    (codec : Codec Token) (zstd : Zstd) (blake3 : Bytes → Bytes) (os : Os) (old src : Bytes)
    → (size fuel n : ℕ) (reads : List Read) (modified : ℤ) (bytes rest : Bytes) (d : Disk)
    → ((v : Token) (b : Bytes) → codec.encode v ≡ some b → codec.decode b ≡ some v)
    → ((p c : Bytes)
        → zstd.compress p ≡ some c
        → length p ≤ max_frame
        → zstd.decompress c max_frame ≡ some p)
    → IsObliging os old
    → length old < 2 ^ 64
    → IsNear modified
    → 1 ≤ size
    → content_of reads ≡ some src
    → NoCollision blake3 old src size
    → length src < fuel
    → Resumes n d (take n src)
    → write_frames codec zstd (
        transfer blake3 n
          (wire_time modified)
          (send_loop blake3 n fuel 0 (new reads (signature_of blake3 size old))))
      ≡ ok bytes
    → IsDelivery src modified
        (at rest)
        (receive_patch codec zstd blake3 os (ok tt) n (at (bytes ++ rest)) d)
patch-delivers codec zstd blake3 os old src size fuel n reads modified bytes rest d back expand nice
      small near l e clash k resumes w =
    let mtime : WireTime = wire_time modified in
    let m : Matcher = new reads (signature_of blake3 size old) in
    let (ts, r, given, whole_file, fits, hashed) =
      all_tokens-rebuild blake3 old src size fuel reads l e clash k in
    let us : List Token = all_to_send n 0 ts in
    let (sent, sent_fits) = all_to_send-drop old n 0 ts fits in
    let frames : transfer blake3 n mtime (send_loop blake3 n fuel 0 m)
        ≡ snoc (commit mtime (blake3 src)) us =
      ap (transfer blake3 n mtime) (send_loop-all_tokens blake3 n fuel 0 m r ts given)
      ∙ unfold transfer in ap (λ (x : Bytes). snoc (commit mtime (blake3 x)) us) hashed in
    let zero_off : n - 0 ≡ n = omega arith in
    subst
      (λ (t : ℤ).
        IsDelivery src t (at rest)
          (receive_patch codec zstd blake3 os (ok tt) n (at (bytes ++ rest)) d))
      (time-roundtrip modified near)
      (received-IsDelivery os old nice blake3 codec zstd n src mtime us (at (bytes ++ rest))
        (at rest) d small resumes sent_fits
        (sent ∙ ap (drop (n - 0)) whole_file ∙ ap (λ (i : ℕ). drop i src) zero_off)
        (recorded-written codec zstd token_ends back expand (snoc (commit mtime (blake3 src)) us)
          bytes rest (snoc-IsTransfer old us mtime (blake3 src) sent_fits)
          (ap (write_frames codec zstd) (sym frames) ∙ w)))
