-- ===== src/Remote/Matcher/Whole.antt =====
-- crates/treesync/src/remote/delta.rs: all the tokens of a `Matcher`, from `new` to its end.
use treesync.Prelude.{
  ℕ, zero, suc, ◌+◌, ◌≤◌, ◌<◌, List, [], ◌++◌, Option, none, some, ◌≡◌, refl, sym, ap, ◌∙◌, inl,
  inr, arith, length, length-append, length-take_le, length-drop, drop, append-nil, append_assoc,
  All,
}
use mathlib.Core.Path.{subst}
use treesync.FilePath.{Bytes}
use treesync.Error.{Result, ok, err}
use treesync.Remote.Token.{Token, copy, literal, commit, abort}
use treesync.Remote.Signature.{signature_of}
use treesync.Remote.Signature.Blocks.{strongs-IsBlockOf}
use treesync.Remote.Token.Meaning.{bytes_of, all_bytes, Fits}
use treesync.Remote.Matcher.{Matcher, Read, new, at_least_one}
use treesync.Remote.Matcher.Loop.{
  Next, token, ended, failed, stuck, next_token, add_token, all_tokens,
}
use treesync.Remote.Matcher.Sound.{IsSound, IsBlock, content_of}
use treesync.Remote.Matcher.Window.{NoCollision}
use treesync.Remote.Matcher.Deliver.{IsOpen, IsNext, next_token-IsNext}

at_least_one_lem : (n : ℕ) → 1 ≤ n → at_least_one n ≡ n
unfolding at_least_one
at_least_one_lem zero l = absurd (omega (arith, l))
at_least_one_lem (suc n) l = refl

module _ (blake3 : Bytes → Bytes) (old src : Bytes) (size : ℕ) where
  -- What the caller's loop comes to: it ends, and its tokens stand for what was left of the source.
  abbrev pub IsRebuilt : Bytes → Result (Option (List Token × Matcher)) → Type 0
  IsRebuilt done (ok (some (ts, r))) =
      (done ++ all_bytes old ts ≡ src) × All (Fits old) ts × (r.hasher ≡ src)
  IsRebuilt done (ok none) = ⊥
  IsRebuilt done (err e) = ⊥

  length-bytes_of : (t : Token) → Fits old t → 1 ≤ length (bytes_of old t)
  length-bytes_of (copy offset len) (l, k) =
      omega
        (arith, k, length-take_le len (drop offset old) (omega (arith, l, length-drop offset old)))
  length-bytes_of (literal bs) l = l
  length-bytes_of (commit mtime hash) l = absurd l
  length-bytes_of (abort reason) l = absurd l

  add_token-IsRebuilt :
      (done : Bytes) (t : Token) (o : Result (Option (List Token × Matcher)))
      → Fits old t
      → IsRebuilt (done ++ bytes_of old t) o
      → IsRebuilt done (add_token t o)
  unfolding add_token
  add_token-IsRebuilt done t (ok (some (ts, r))) f (e, fs, h) =
      (sym (append_assoc done (bytes_of old t) (all_bytes old ts)) ∙ e, (f, fs), h)
  add_token-IsRebuilt done t (ok none) f h = absurd h
  add_token-IsRebuilt done t (err e) f h = absurd h

  IsOpen-le :
      (done : Bytes) (m : Matcher) → IsOpen blake3 old src size done m → length done ≤ length src
  IsOpen-le done m (inl (q, z, coming, s)) = omega (arith, ap length s.whole, length-append done _)
  IsOpen-le done m (inr d) =
      omega (arith, ap length d.all_there, length-append done (all_bytes old m.ready))

  all_tokens-IsRebuilt :
      (done : Bytes) (fuel : ℕ) (m : Matcher)
      → NoCollision blake3 old src size
      → IsOpen blake3 old src size done m
      → length src < fuel + length done
      → IsRebuilt done (all_tokens blake3 fuel m)
  unfolding all_tokens
  all_tokens-IsRebuilt done zero m clash o l = absurd (omega (arith, l, IsOpen-le done m o))
  all_tokens-IsRebuilt done (suc fuel) m clash o l =
      after (next_token blake3 m) (next_token-IsNext blake3 old src size done m clash o) (λ t r f p.
        all_tokens-IsRebuilt (done ++ bytes_of old t) fuel r clash p
          (omega (arith, l, length-append done (bytes_of old t), length-bytes_of t f)))
    where
      after :
          (n : Next)
          → IsNext blake3 old src size done n
          → ((t : Token) (r : Matcher)
              → Fits old t
              → IsOpen blake3 old src size (done ++ bytes_of old t) r
              → IsRebuilt (done ++ bytes_of old t) (all_tokens blake3 fuel r))
          → IsRebuilt done (elim n [
            | token t r ↦ add_token t (all_tokens blake3 fuel r)
            | ended r ↦ ok (some ([], r))
            | failed e ↦ err e
            | stuck ↦ ok none
          ])
      after (token t r) (f, o) more =
          add_token-IsRebuilt done t (all_tokens blake3 fuel r) f (more t r f o)
      after (ended r) (e, h) more = (append-nil done ∙ e, tt, h)
      after (failed e) h more = absurd h
      after stuck h more = absurd h

  new-IsSound :
      (reads : List Read)
      → 1 ≤ size
      → content_of reads ≡ some src
      → IsSound blake3 old src [] src (new reads (signature_of blake3 size old))
  unfolding new signature_of at_least_one
  new-IsSound reads l e = record {
    positive = omega (arith, l, same_size);
    inside = omega arith;
    whole = refl;
    hashed = refl;
    source = e;
    fits = tt;
    run_fits = tt;
    exclusive = inl refl;
    known = λ i h q.
        subst (λ (n : ℕ). IsBlock blake3 old src n i h) (sym same_size)
          (strongs-IsBlockOf blake3 size (length old) old i h q);
  }
    where
      same_size : at_least_one size ≡ size
      same_size = at_least_one_lem size l

pub new-IsOpen :
    (blake3 : Bytes → Bytes) (old src : Bytes) (size : ℕ) (reads : List Read)
    → 1 ≤ size
    → content_of reads ≡ some src
    → IsOpen blake3 old src size [] (new reads (signature_of blake3 size old))
unfolding new signature_of
new-IsOpen blake3 old src size reads l e =
    inl (refl, at_least_one_lem size l, src, new-IsSound blake3 old src size reads l e)

-- The tokens that `Matcher` gives for a source, against the signature of an old file, stand for the
-- source's bytes: the caller's loop ends with a list of tokens, for every way in which the reads cut
-- the source up; each of them carries at least one byte, and reuses only what the old file has; and
-- the hasher has taken in the source. The block is one byte at least, the fuel above the length of
-- the source, and no window of the source has the strong hash of a block that it differs from.
pub all_tokens-rebuild :
    (blake3 : Bytes → Bytes) (old src : Bytes) (size fuel : ℕ) (reads : List Read)
    → 1 ≤ size
    → content_of reads ≡ some src
    → NoCollision blake3 old src size
    → length src < fuel
    → (ts : List Token) × (r : Matcher) × (all_tokens blake3 fuel
          (new reads (signature_of blake3 size old))
        ≡ ok (some (ts, r)))
      × (all_bytes old ts ≡ src)
      × All (Fits old) ts
      × (r.hasher ≡ src)
all_tokens-rebuild blake3 old src size fuel reads l e clash k =
    given (all_tokens blake3 fuel start) (
      all_tokens-IsRebuilt blake3 old src size [] fuel start clash
        (new-IsOpen blake3 old src size reads l e) (omega (arith, k)))
  where
    start : Matcher
    start = new reads (signature_of blake3 size old)

    given :
        (o : Result (Option (List Token × Matcher)))
        → IsRebuilt blake3 old src size [] o
        → (ts : List Token) × (r : Matcher) × (o ≡ ok (some (ts, r)))
          × (all_bytes old ts ≡ src)
          × All (Fits old) ts
          × (r.hasher ≡ src)
    given (ok (some (ts, r))) (a, f, h) = (ts, r, refl, a, f, h)
    given (ok none) h = absurd h
    given (err x) h = absurd h
