-- ===== src/Remote/Resumption/Agreement.antt =====
-- crates/treesync/src/remote/ssh.rs and agent.rs: what the two sides agree to resume from.
use treesync.Prelude.{
  ℕ, zero, suc, ◌≤◌, [], ◌∷◌, Bool, true, false, Bool-cases, Option, none, some, ◌≡◌, refl, sym, ap,
  ◌∙◌, ◌⊎◌, inl, inr, arith, ltb, length, take, take_all, ◌==◌, list_eq, nat_eq, beq→eq,
}
use mathlib.Core.Path.{subst}
use treesync.Prelude.Int.{ℤ}
use treesync.FilePath.{Bytes}
use treesync.Error.{
  Error, IoKind, io_not_found, io_permission_denied, io_already_exists, io_unexpected_eof, io_other,
  Result, ok, err, ok-injective,
}
use treesync.Remote.Message.{Response, resume_state, from_error, into_result}
use treesync.Remote.Agent.{Disk, Os, Entry, regular, irregular, answer}
use treesync.Remote.Agent.Copy.{Outcome, reabsorb}
use treesync.Remote.Agent.Copied.{IsUnchanged}
use treesync.Remote.Agent.Resumed.{reabsorb-IsUnchanged}
use treesync.Remote.Agent.Start.{Resumes}
use treesync.Remote.Resumption.{
  nothing, reported, state_of, state_at, agent_state, reply_of, hash_prefix, agreed, resumable,
  resumable_of, resumable_from,
}

-- What the agent may answer for `d`: nothing, a failure, or the size and digest of what is there.
abbrev IsState : (Bytes → Bytes) → Disk → Result Response → Type 0
IsState blake3 d r =
    (r ≡ nothing blake3)
    ⊎ ((e : Error) × (r ≡ err e))
    ⊎ ((content : Bytes) × (m : Option ℤ) × (d.temporary ≡ some (regular content m))
        × (r ≡ ok (resume_state (length content) (blake3 content))))

state_of-IsState :
    (os : Os) (blake3 : Bytes → Bytes) (o : Option Entry) (d : Disk)
    → d.temporary ≡ o
    → IsState blake3 d (state_of os blake3 o d)
unfolding state_of
state_of-IsState os blake3 none d e = inl refl
state_of-IsState os blake3 (some irregular) d e = inl refl
state_of-IsState os blake3 (some (regular [] mtime)) d e = inl refl
state_of-IsState os blake3 (some (regular (b ∷ bs) mtime)) d e =
    go (reabsorb os content (length content) d [])
      (reabsorb-IsUnchanged os content (length content) d [])
  where
    content : Bytes
    content = b ∷ bs

    go :
        (o : Outcome)
        → IsUnchanged d (take (length content) content) o
        → IsState blake3 d (reported blake3 (length content) o)
    go (ok u, r, h) (k, same) = inr (
        inr (
          content,
          mtime,
          e,
          unfold reported in
              ap (λ (x : Bytes). ok (resume_state (length content) (blake3 x)))
                (same ∙ take_all (length content) content (omega arith)),
        ))
    go (err x, r, h) k = inr (inl (x, unfold reported in refl))

state_at-IsState :
    (os : Os) (blake3 : Bytes → Bytes) (k : Option IoKind) (d : Disk)
    → IsState blake3 d (state_at os blake3 k d)
unfolding state_at answer
state_at-IsState os blake3 none d = state_of-IsState os blake3 d.temporary d refl
state_at-IsState os blake3 (some io_not_found) d = inl refl
state_at-IsState os blake3 (some io_permission_denied) d = inr (inl (_, refl))
state_at-IsState os blake3 (some io_already_exists) d = inr (inl (_, refl))
state_at-IsState os blake3 (some io_unexpected_eof) d = inr (inl (_, refl))
state_at-IsState os blake3 (some io_other) d = inr (inl (_, refl))

agent_state-IsState :
    (os : Os) (blake3 : Bytes → Bytes) (root : Bool) (resolved : Result (Unit {0})) (d : Disk)
    → IsState blake3 d (agent_state os blake3 root resolved d)
unfolding agent_state
agent_state-IsState os blake3 false resolved d = inl refl
agent_state-IsState os blake3 true (err e) d = inr (inl (e, refl))
agent_state-IsState os blake3 true (ok u) d = state_at-IsState os blake3 (os.stats_temporary d) d

-- What the client agrees to for a size and a digest that the agent reports.
resumable-agreed :
    (blake3 : Bytes → Bytes) (src : Bytes) (count n : ℕ) (hash : Bytes)
    → resumable blake3 (ok src) count hash ≡ ok (suc n)
    → (count ≡ suc n) × (suc n ≤ length src) × (blake3 (take (suc n) src) ≡ hash)
unfolding resumable hash_prefix agreed
resumable-agreed blake3 src zero n hash e = absurd (cc e)
resumable-agreed blake3 src (suc count) n hash e =
    elim (Bool-cases (ltb (length src) (suc count))) [
      | inl q ↦ absurd (cc (rw (q, resumable) at e))
      | inr q ↦ elim (Bool-cases (blake3 (take (suc count) src) == hash)) [
        | inr p ↦ absurd (cc (rw (q, p, resumable) at e))
        | inl p ↦
            let same : suc count ≡ suc n = ok-injective (rw (q, p, resumable) at e) in
            let l : suc count ≤ length src = ground (arith, q) in
            (
              same,
              omega (arith, l, same),
              ap (λ (k : ℕ). blake3 (take k src)) (sym same)
                  ∙ beq→eq (blake3 (take (suc count) src)) hash p,
            )
      ]
    ]

-- The client settles on `n` after the agent's answer.
abbrev Settles : (Bytes → Bytes) → Bytes → ℕ → Result Response → Type 0
Settles blake3 src n r = resumable_from blake3 (ok src) (reply_of r) ≡ ok n

failure-resumes :
    (blake3 : Bytes → Bytes) (src : Bytes) (e : Error) (n : ℕ) → Settles blake3 src n (err e) → ⊥
unfolding resumable_from from_error into_result reply_of
failure-resumes blake3 src e n h = cc h

nothing-resumes :
    (blake3 : Bytes → Bytes) (src : Bytes) (n : ℕ) → Settles blake3 src (suc n) (nothing blake3) → ⊥
unfolding resumable_from into_result reply_of nothing resumable_of resumable
nothing-resumes blake3 src n h = cc h

state-resumes :
    (blake3 : Bytes → Bytes) (src : Bytes) (count n : ℕ) (hash : Bytes)
    → Settles blake3 src n (ok (resume_state count hash))
    → resumable blake3 (ok src) count hash ≡ ok n
unfolding resumable_from into_result reply_of resumable_of
state-resumes blake3 src count n hash h = h

-- If the client settles on a point to resume from, after what the agent reports of its disk, then a
-- patch from there rebuilds the source: the agent's temporary starts with just the bytes that the
-- source has in front of that point. The agent's calls may fail; the source can be read, and no
-- partial file has the digest of a part of the source that it differs from.
pub resumable_from-Resumes :
    (os : Os) (blake3 : Bytes → Bytes) (root : Bool) (resolved : Result (Unit {0})) (src : Bytes)
    (d : Disk) (n : ℕ)
    → ((content : Bytes) (k : ℕ) → blake3 (take k src) ≡ blake3 content → take k src ≡ content)
    → resumable_from blake3 (ok src) (reply_of (agent_state os blake3 root resolved d)) ≡ ok n
    → Resumes n d (take n src) × (n ≤ length src)
resumable_from-Resumes os blake3 root resolved src d zero clash e = (refl, omega arith)
resumable_from-Resumes os blake3 root resolved src d (suc n) clash e =
    go (agent_state os blake3 root resolved d) (agent_state-IsState os blake3 root resolved d) e
  where
    go :
        (r : Result Response)
        → IsState blake3 d r
        → resumable_from blake3 (ok src) (reply_of r) ≡ ok (suc n)
        → Resumes (suc n) d (take (suc n) src) × (suc n ≤ length src)
    go r (inl q) e = absurd (nothing-resumes blake3 src n (subst (Settles blake3 src (suc n)) q e))
    go r (inr (inl (x, q))) e =
        absurd (failure-resumes blake3 src x (suc n) (subst (Settles blake3 src (suc n)) q e))
    go r (inr (inr (content, m, t, q))) e =
        let (size, l, hash) = resumable-agreed blake3 src (length content) n (blake3 content) (
          state-resumes blake3 src (length content) (suc n) (blake3 content)
            (subst (Settles blake3 src (suc n)) q e)) in
        let same : take (suc n) src ≡ content = clash content (suc n) hash in
        (
          (
            content,
            m,
            t,
            omega (arith, size),
            take_all (suc n) content (omega (arith, size)) ∙ sym same,
          ),
          l,
        )
