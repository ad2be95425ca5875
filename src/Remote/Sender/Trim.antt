-- ===== src/Remote/Sender/Trim.antt =====
-- crates/treesync/src/remote/ssh.rs: the tokens of a resumed patch.
use treesync.Prelude.{
  ℕ, zero, suc, ◌+◌, ◌-◌, ◌≤◌, ◌<◌, List, [], ◌∷◌, ◌++◌, Bool-cases, Option, none, some, ◌≡◌, refl,
  sym, ap, ap₂, ◌∙◌, inl, inr, arith, leb, ltb, length, take, drop, length-take_le, length-drop,
  drop_nil, drop-drop, drop-append_le, drop-append_ge, drop-take, All,
}
use treesync.FilePath.{Bytes}
use treesync.Error.{Result, ok, err}
use treesync.Remote.Token.{Token, copy, literal, commit, abort}
use treesync.Remote.Token.Meaning.{bytes_of, all_bytes, Fits}
use treesync.Remote.Matcher.{Matcher}
use treesync.Remote.Matcher.Loop.{
  Next, token, ended, failed, stuck, next_token, add_token, all_tokens,
}
use treesync.Remote.Sender.{
  length_of, trim, to_send, Scanned, whole, broken, out_of_fuel, send_loop,
}

-- What is sent for all the tokens from `start` on.
abbrev pub all_to_send : ℕ → ℕ → List Token → List Token
all_to_send resume_from start [] = []
all_to_send resume_from start (t ∷ ts) =
    to_send resume_from start t ++ all_to_send resume_from (start + length_of t) ts

length-bytes_of : (old : Bytes) (t : Token) → Fits old t → length (bytes_of old t) ≡ length_of t
unfolding length_of
length-bytes_of old (copy offset len) (l, k) =
    length-take_le len (drop offset old) (omega (arith, l, length-drop offset old))
length-bytes_of old (literal bs) l = refl
length-bytes_of old (commit mtime hash) l = absurd l
length-bytes_of old (abort reason) l = absurd l

bytes_of-trim :
    (old : Bytes) (skip : ℕ) (t : Token)
    → Fits old t
    → bytes_of old (trim skip t) ≡ drop skip (bytes_of old t)
unfolding trim
bytes_of-trim old skip (copy offset len) (l, k) =
    ap (take (len - skip)) (sym (drop-drop skip offset old))
    ∙ sym (drop-take skip len (drop offset old))
bytes_of-trim old skip (literal bs) l = refl
bytes_of-trim old skip (commit mtime hash) l = absurd l
bytes_of-trim old skip (abort reason) l = absurd l

Fits-trim :
    (old : Bytes) (skip : ℕ) (t : Token) → Fits old t → skip < length_of t → Fits old (trim skip t)
unfolding trim length_of
Fits-trim old skip (copy offset len) (l, k) s = (omega (arith, l, s), omega (arith, s))
Fits-trim old skip (literal bs) l s = omega (arith, s, length-drop skip bs)
Fits-trim old skip (commit mtime hash) l s = absurd l
Fits-trim old skip (abort reason) l s = absurd l

drop_none : (n : ℕ) (xs : Bytes) → n ≡ 0 → xs ≡ drop n xs
drop_none n xs e = ap (λ (k : ℕ). drop k xs) (sym e)

-- The tokens that a resumed patch sends stand for what the source has behind the resume point, and
-- each of them fits the old file.
pub all_to_send-drop :
    (old : Bytes) (resume_from start : ℕ) (ts : List Token)
    → All (Fits old) ts
    → (all_bytes old (all_to_send resume_from start ts)
        ≡ drop (resume_from - start) (all_bytes old ts))
      × All (Fits old) (all_to_send resume_from start ts)
unfolding to_send
all_to_send-drop old n start [] h = (sym (drop_nil (n - start)), tt)
all_to_send-drop old n start (t ∷ ts) (f, fs) =
    let size = length-bytes_of old t f in
    let (more, fit) = all_to_send-drop old n (start + length_of t) ts fs in
    let rest : Bytes = all_bytes old ts in
    elim (Bool-cases (leb (start + length_of t) n)) [
      | inl q ↦
          let l : start + length_of t ≤ n = ground (arith, q) in
          let gone : n - (start + length_of t) ≡ n - start - length (bytes_of old t) =
            omega (arith, size) in
          rw (q, to_send)
            (
              more
                  ∙ ap (λ (k : ℕ). drop k rest) gone
                  ∙ sym (drop-append_ge (n - start) (bytes_of old t) rest (omega (arith, size, l))),
              fit,
            )
      | inr q ↦
          let l : n < start + length_of t = ground (arith, q) in
          let here : n - (start + length_of t) ≡ 0 = omega (arith, l) in
          let all_of : all_bytes old (all_to_send n (start + length_of t) ts) ≡ rest =
            more ∙ sym (drop_none (n - (start + length_of t)) rest here) in
          elim (Bool-cases (ltb start n)) [
            | inl p ↦
                let k : start < n = ground (arith, p) in
                rw (q, p, to_send)
                  (
                    ap₂ ◌++◌ (bytes_of-trim old (n - start) t f) all_of
                        ∙ sym (
                            drop-append_le (n - start) (bytes_of old t) rest
                              (omega (arith, l, size, k))),
                    (Fits-trim old (n - start) t f (omega (arith, l, k)), fit),
                  )
            | inr p ↦
                let k : n - start ≡ 0 = ground (arith, p) in
                rw (q, p, to_send)
                  (
                    ap (λ (x : Bytes). bytes_of old t ++ x) all_of
                        ∙ drop_none (n - start) (bytes_of old t ++ rest) k,
                    (f, fit),
                  )
          ]
    ]

add_token-some :
    (t : Token) (o : Result (Option (List Token × Matcher))) (ts : List Token) (r : Matcher)
    → add_token t o ≡ ok (some (ts, r))
    → (us : List Token) × (o ≡ ok (some (us, r))) × (ts ≡ t ∷ us)
unfolding add_token
add_token-some t (ok (some (us, q))) ts r e = (us, cc e, cc e)
add_token-some t (ok none) ts r e = absurd (cc e)
add_token-some t (err x) ts r e = absurd (cc e)

-- Where the matcher gives every token, the loop sends what `all_to_send` says, and ends well.
pub send_loop-all_tokens :
    (blake3 : Bytes → Bytes) (resume_from fuel produced : ℕ) (m r : Matcher) (ts : List Token)
    → all_tokens blake3 fuel m ≡ ok (some (ts, r))
    → send_loop blake3 resume_from fuel produced m ≡ (all_to_send resume_from produced ts, whole r)
unfolding send_loop all_tokens
send_loop-all_tokens blake3 n zero produced m r ts e = cc e
send_loop-all_tokens blake3 n (suc fuel) produced m r ts e =
    after (next_token blake3 m) e
      (λ t q us h. send_loop-all_tokens blake3 n fuel (produced + length_of t) q r us h)
  where
    after :
        (x : Next)
        → (elim x [
          | token t q ↦ add_token t (all_tokens blake3 fuel q)
          | ended q ↦ ok (some ([], q))
          | failed y ↦ err y
          | stuck ↦ ok none
        ])
          ≡ ok (some (ts, r))
        → ((t : Token) (q : Matcher) (us : List Token)
            → all_tokens blake3 fuel q ≡ ok (some (us, r))
            → send_loop blake3 n fuel (produced + length_of t) q
              ≡ (all_to_send n (produced + length_of t) us, whole r))
        → Path
            (List Token × Scanned)
            (elim x [
              | token t q ↦
                  let (us, end) = send_loop blake3 n fuel (produced + length_of t) q in
                  (to_send n produced t ++ us, end)
              | ended q ↦ ([], whole q)
              | failed y ↦ ([], broken y)
              | stuck ↦ ([], out_of_fuel)
            ])
            (all_to_send n produced ts, whole r)
    after (token t q) e more =
        let (us, h, same) = add_token-some t (all_tokens blake3 fuel q) ts r e in
        ap (λ (x : List Token × Scanned). (to_send n produced t ++ x.0, x.1)) (more t q us h)
        ∙ ap (λ (x : List Token). (all_to_send n produced x, whole r)) (sym same)
    after (ended q) e more = cc (e)
    after (failed y) e more = absurd (cc e)
    after stuck e more = absurd (cc e)
