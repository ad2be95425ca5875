-- ===== src/Remote/Agent/Ahead.antt =====
-- crates/treesync/src/remote/agent.rs: how the temporary grows where no call fails.
use treesync.Prelude.{
  ℕ, ◌+◌, ◌^◌, ◌≤◌, ◌<◌, List, [], ◌∷◌, ◌++◌, Bool, true, false, Option, none, some, ◌≡◌, sym, ap,
  length, All, append_assoc, append-nil,
}
use mathlib.Core.Path.{subst}
use treesync.FilePath.{Bytes}
use treesync.Error.{Error, Result, ok, err}
use treesync.Remote.Token.{Token, copy, literal, commit, abort}
use treesync.Remote.Token.Meaning.{range, bytes_of, all_bytes, Fits}
use treesync.Remote.Agent.{Disk, Os, write_all}
use treesync.Remote.Agent.Copy.{Outcome, copy_range}
use treesync.Remote.Agent.Copied.{Holds, IsOutcome, copy_range-IsOutcome, write_all-Holds}
use treesync.Remote.Agent.Obliging.{IsObliging, IsOk, write_all_lem, copy_range-IsOk}
use treesync.Remote.Agent.Patch.{
  Patch, after_copy, take_copy, after_write, take_literal, take_token,
}
use treesync.Remote.Agent.Aligned.{fold}

-- Nothing failed, and the temporary holds `done`.
pub record IsAhead (done : Bytes) (p : Patch) : Type 0 where
  pub no_failure : p.failure ≡ none
  pub is_open : p.opened ≡ true
  pub hashed : p.hasher ≡ done
  pub held : Holds p.disk done

module _ (os : Os) (old : Bytes) (nice : IsObliging os old) (small : length old < 2 ^ 64) where
  after_copy-IsAhead :
      (done bs : Bytes) (p : Patch) (o : Outcome)
      → IsAhead done p
      → IsOk o
      → IsOutcome p.disk bs o
      → IsAhead bs (after_copy o p)
  unfolding after_copy
  after_copy-IsAhead done bs p (err x, d, h) a e k = absurd (cc e)
  after_copy-IsAhead done bs p (ok u, d, h) a e (k, same, t) = record {
    no_failure = a.no_failure;
    is_open = a.is_open;
    hashed = same;
    held = t;
  }

  take_copy-IsAhead :
      (done : Bytes) (failure : Option Error) (opened : Bool) (offset len : ℕ) (p : Patch)
      → failure ≡ none
      → opened ≡ true
      → offset + len ≤ length old
      → IsAhead done p
      → IsAhead (done ++ range old offset len) (take_copy os failure (some old) opened offset len p)
  unfolding take_copy
  take_copy-IsAhead done (some e) opened offset len p f o l a = absurd (cc f)
  take_copy-IsAhead done none false offset len p f o l a = absurd (cc o)
  take_copy-IsAhead done none true offset len p f o l a =
      after_copy-IsAhead done (done ++ range old offset len) p _ a
        (copy_range-IsOk os old nice old offset len p.disk p.hasher l small)
        (subst
          (λ (x : Bytes).
            IsOutcome p.disk (done ++ range old offset len) (copy_range os old offset len p.disk x))
          (sym a.hashed) (copy_range-IsOutcome os old offset len p.disk done a.held))

  take_literal-IsAhead :
      (done : Bytes) (opened : Bool) (bytes : Bytes) (p : Patch)
      → opened ≡ true
      → IsAhead done p
      → IsAhead (done ++ bytes) (take_literal os opened bytes p)
  unfolding take_literal
  take_literal-IsAhead done false bytes p o a = absurd (cc o)
  take_literal-IsAhead done true bytes p o a =
      written (write_all os bytes p.disk) (write_all_lem os old nice bytes p.disk)
        (write_all-Holds os p.disk done bytes a.held (write_all_lem os old nice bytes p.disk))
    where
      written :
          (w : Result (Unit {0}) × Disk)
          → w.0 ≡ ok tt
          → Holds w.1 (done ++ bytes)
          → IsAhead (done ++ bytes) (after_write w bytes p)
      written (err x, d) e t = absurd (cc e)
      written (ok u, d) e t =
          unfold after_write in
          record {
            no_failure = a.no_failure;
            is_open = a.is_open;
            hashed = ap (λ (x : Bytes). x ++ bytes) a.hashed;
            held = t;
          }

  take_token-IsAhead :
      (done : Bytes) (t : Token) (p : Patch)
      → Fits old t
      → IsAhead done p
      → IsAhead (done ++ bytes_of old t) (take_token os (some old) t p)
  unfolding take_token
  take_token-IsAhead done (copy offset len) p (l, k) a =
      take_copy-IsAhead done p.failure p.opened offset len p a.no_failure a.is_open l a
  take_token-IsAhead done (literal bytes) p l a =
      take_literal-IsAhead done p.opened bytes p a.is_open a
  take_token-IsAhead done (commit mtime hash) p l a = absurd l
  take_token-IsAhead done (abort reason) p l a = absurd l

  pub fold-IsAhead :
      (done : Bytes) (ts : List Token) (p : Patch)
      → All (Fits old) ts
      → IsAhead done p
      → IsAhead (done ++ all_bytes old ts) (fold (take_token os (some old)) p ts)
  fold-IsAhead done [] p h a = subst (λ (x : Bytes). IsAhead x p) (sym (append-nil done)) a
  fold-IsAhead done (t ∷ ts) p (f, fs) a =
      subst (λ (x : Bytes). IsAhead x (fold (take_token os (some old)) p (t ∷ ts)))
        (append_assoc done (bytes_of old t) (all_bytes old ts))
        (fold-IsAhead (done ++ bytes_of old t) ts (take_token os (some old) t p) fs
          (take_token-IsAhead done t p f a))
