-- ===== src/Remote/Matcher/Loop.antt =====
-- crates/treesync/src/remote/delta.rs: the loops of `Matcher`, and the caller's.
use treesync.Prelude.{
  ℕ, zero, suc, ◌+◌, ◌-◌, List, [], ◌∷◌, not, Option, none, some, leb, length, take, get_elem?,
  ◌==◌, nat_eq, list_eq, if◌then◌else◌,
}
use treesync.FilePath.{Bytes}
use treesync.Error.{Error, Result, ok, err, ◌>>=◌}
use treesync.Remote.Rolling.{Rolling, roll, digest}
use treesync.Remote.Rolling
use treesync.Remote.Signature.{strong}
use treesync.Remote.Token.{Token}
use treesync.Remote.Matcher.{literal_flush, Read, bytes, fault, Candidates, Matcher, ahead, fill}
use treesync.Remote.Matcher.Move.{flush_literal, matched, passed, byte_at, has_window, finish}

-- `candidates.get(&digest)`
unfoldable pub candidates_at : ℕ → Candidates → List ℕ
candidates_at weak [] = []
candidates_at weak ((w, is) ∷ cs) = if w == weak then is else candidates_at weak cs

-- The first of the candidates whose strong hash is the window's.
unfoldable pub first_match : List Bytes → Bytes → List ℕ → Option ℕ
first_match strongs hash [] = none
first_match strongs hash (i ∷ is) = elim (get_elem? strongs i) [
  | none ↦ first_match strongs hash is
  | some h ↦ if h == hash then some i else first_match strongs hash is
]

unfoldable pub match_at : (Bytes → Bytes) → Rolling → Matcher → Option ℕ
unfolding candidates_at first_match digest
match_at blake3 rolling m =
    first_match m.strong (strong blake3 (take m.block_size (ahead m)))
      (candidates_at (digest rolling) m.candidates)

-- What `next_token` comes to: a token, the end of the stream, or a failed read. The last is for
-- a loop that ran out of fuel.
pub data Next : Type 0 where
  token : Token → Matcher → Next
  ended : Matcher → Next
  failed : Error → Next
  stuck : Next

unfoldable pub unread : List Read → ℕ
unread [] = 0
unread (bytes b ∷ rs) = length b + unread rs
unread (fault k ∷ rs) = unread rs

abbrev pub remaining : Matcher → ℕ
remaining m = length (ahead m) + unread m.reader

-- One round of the loop of `next_token`, by what the step gives.
unfoldable pub after_step : Result (Option Matcher) → (Matcher → Next) → Next
after_step (err e) more = failed e
after_step (ok none) more = stuck
after_step (ok (some m)) more = more m

unfoldable pub add_token :
    Token → Result (Option (List Token × Matcher)) → Result (Option (List Token × Matcher))
add_token t (err e) = err e
add_token t (ok none) = ok none
add_token t (ok (some (ts, r))) = ok (some (t ∷ ts, r))

module _ (blake3 : Bytes → Bytes) where
  -- The loop of `step`. On fuel; `none` means that it ran out.
  unfoldable pub scan : ℕ → Rolling → Matcher → Option Matcher
  unfolding match_at matched passed byte_at roll flush_literal
  scan zero rolling m = none
  scan (suc fuel) rolling m = elim (match_at blake3 rolling m) [
    | some block ↦ some (matched block m)
    | none ↦
        let out = byte_at m.pos m.buffer in
        let r = passed out m in
        let rolled = roll rolling out (byte_at (r.pos + r.block_size - 1) r.buffer) in
        let more = scan fuel rolled r in
        if not (has_window r)
        then some (record r { rolling = none })
        else if leb literal_flush (length r.literal)
        then some (record (flush_literal r) { rolling = some rolled })
        else more
  ]

  unfoldable pub rolling_of : Option Rolling → Matcher → Rolling
  unfolding Rolling.new
  rolling_of none m = Rolling.new (take m.block_size (ahead m))
  rolling_of (some r) m = r

  unfoldable pub scan_from : Matcher → Option Matcher
  unfolding scan finish rolling_of
  scan_from m =
      if has_window m
      then scan (suc (length m.buffer)) (rolling_of m.rolling m) (record m { rolling = none })
      else some (finish m)

  unfoldable pub step : Matcher → Result (Option Matcher)
  unfolding fill scan_from
  step m = do filled ← fill m; ok (scan_from filled)

  unfoldable pub next_loop : ℕ → Matcher → Next
  unfolding after_step step
  next_loop zero m = stuck
  next_loop (suc fuel) m = elim m.ready [
    | t ∷ ts ↦ token t (record m { ready = ts })
    | [] ↦
        let next = after_step (step m) (λ r. next_loop fuel r) in
        if m.finished then ended m else next
  ]

  unfoldable pub next_token : Matcher → Next
  unfolding next_loop unread
  next_token m = next_loop (suc (suc (remaining m))) m

  -- The caller's loop: every token in turn. `none` where the fuel ran out.
  unfoldable pub all_tokens : ℕ → Matcher → Result (Option (List Token × Matcher))
  unfolding next_token add_token
  all_tokens zero m = ok none
  all_tokens (suc fuel) m = elim (next_token m) [
    | token t r ↦ add_token t (all_tokens fuel r)
    | ended r ↦ ok (some ([], r))
    | failed e ↦ err e
    | stuck ↦ ok none
  ]
