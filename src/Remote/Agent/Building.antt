-- ===== src/Remote/Agent/Building.antt =====
-- crates/treesync/src/remote/agent.rs: the files while `receive_patch` takes tokens.
use treesync.Prelude.{
  ℕ, List, [], ◌∷◌, ◌++◌, Bool, true, false, Option, none, some, append-nil, append_assoc, IsIn,
  IsIn-append_left, IsIn-append_right, ◌≡◌, refl, sym, ◌∙◌, inl, list_eq, nat_eq,
}
use mathlib.Core.Path.{subst}
use treesync.Remote.Agent.Aligned.{fold, snoc}
use treesync.FilePath.{Bytes}
use treesync.Error.{Text, Error, Result, ok, err}
use treesync.Remote.Wire.{WireTime}
use treesync.Remote.Token.{Token, copy, literal, commit, abort}
use treesync.Remote.Token.Meaning.{range}
use treesync.Remote.Agent.{Disk, Os, write_all}
use treesync.Remote.Agent.Copy.{Outcome, copy_range}
use treesync.Remote.Agent.Copied.{
  Kept, Holds, IsOutcome, write_all-Kept, write_all-Holds, copy_range-IsOutcome,
}
use treesync.Remote.Agent.Patch.{
  Patch, after_copy, take_copy, after_write, take_literal, abort_patch, take_token,
}

-- Since the loop was entered with `d`, nothing but the temporary was touched; as long as nothing
-- failed, the temporary is open and holds what was hashed.
pub record IsBuilding (d : Disk) (p : Patch) : Type 0 where
  pub untouched : Kept d p.disk
  pub open_unless_failed : p.failure ≡ none → p.opened ≡ true
  pub holds : p.failure ≡ none → Holds p.disk p.hasher

failed-IsBuilding :
    (d : Disk) (p : Patch) (e : Error) → Kept d p.disk → p.failure ≡ some e → IsBuilding d p
failed-IsBuilding d p e k f = record {
  untouched = k;
  open_unless_failed = λ q. cc (q, f);
  holds = λ q. absurd (cc (q, f));
}

after_copy-IsBuilding :
    (d : Disk) (bs : Bytes) (p : Patch) (o : Outcome)
    → IsBuilding d p
    → IsOutcome p.disk bs o
    → IsBuilding d (after_copy o p)
unfolding after_copy
after_copy-IsBuilding d bs p (err e, r, h) b k =
    failed-IsBuilding d _ e (k.0 ∙ b.untouched.0, k.1 ∙ b.untouched.1) refl
after_copy-IsBuilding d bs p (ok u, r, h) b (k, e, t) = record {
  untouched = (k.0 ∙ b.untouched.0, k.1 ∙ b.untouched.1);
  open_unless_failed = b.open_unless_failed;
  holds = λ q. subst (Holds r) (sym e) t;
}

take_copy-IsBuilding :
    (os : Os) (d : Disk) (failure : Option Error) (existing : Option Bytes) (opened : Bool)
    → (offset len : ℕ) (p : Patch) → IsBuilding d p
    → p.failure ≡ failure
    → IsBuilding d (take_copy os failure existing opened offset len p)
unfolding take_copy
take_copy-IsBuilding os d (some e) existing opened offset len p b q = b
take_copy-IsBuilding os d none none opened offset len p b q =
    failed-IsBuilding d _ _ b.untouched refl
take_copy-IsBuilding os d none (some source) false offset len p b q =
    failed-IsBuilding d _ _ b.untouched refl
take_copy-IsBuilding os d none (some source) true offset len p b q =
    after_copy-IsBuilding d (p.hasher ++ range source offset len) p _ b
      (copy_range-IsOutcome os source offset len p.disk p.hasher (b.holds q))

after_write-IsBuilding :
    (d : Disk) (bytes : Bytes) (p : Patch) (w : Result (Unit {0}) × Disk)
    → IsBuilding d p
    → Kept p.disk w.1
    → (p.failure ≡ none → w.0 ≡ ok tt → Holds w.1 (p.hasher ++ bytes))
    → IsBuilding d (after_write w bytes p)
unfolding after_write
after_write-IsBuilding d bytes p (err e, r) b k t =
    failed-IsBuilding d _ e (k.0 ∙ b.untouched.0, k.1 ∙ b.untouched.1) refl
after_write-IsBuilding d bytes p (ok u, r) b k t = record {
  untouched = (k.0 ∙ b.untouched.0, k.1 ∙ b.untouched.1);
  open_unless_failed = b.open_unless_failed;
  holds = λ q. t q refl;
}

take_literal-IsBuilding :
    (os : Os) (d : Disk) (opened : Bool) (bytes : Bytes) (p : Patch)
    → IsBuilding d p
    → IsBuilding d (take_literal os opened bytes p)
unfolding take_literal
take_literal-IsBuilding os d false bytes p b = b
take_literal-IsBuilding os d true bytes p b =
    after_write-IsBuilding d bytes p (write_all os bytes p.disk) b (write_all-Kept os bytes p.disk)
      (λ q e. write_all-Holds os p.disk p.hasher bytes (b.holds q) e)

abort_patch-IsBuilding :
    (d : Disk) (failure : Option Error) (reason : Text) (p : Patch)
    → IsBuilding d p
    → IsBuilding d (abort_patch failure reason p)
unfolding abort_patch
abort_patch-IsBuilding d (some e) reason p b = b
abort_patch-IsBuilding d none reason p b = failed-IsBuilding d _ _ b.untouched refl

pub take_token-IsBuilding :
    (os : Os) (d : Disk) (existing : Option Bytes) (t : Token) (p : Patch)
    → IsBuilding d p
    → IsBuilding d (take_token os existing t p)
unfolding take_token
take_token-IsBuilding os d existing (copy offset len) p b =
    take_copy-IsBuilding os d p.failure existing p.opened offset len p b refl
take_token-IsBuilding os d existing (literal bytes) p b =
    take_literal-IsBuilding os d p.opened bytes p b
take_token-IsBuilding os d existing (commit mtime hash) p b = record {
  untouched = b.untouched;
  open_unless_failed = b.open_unless_failed;
  holds = b.holds;
}
take_token-IsBuilding os d existing (abort reason) p b =
    abort_patch-IsBuilding d p.failure reason p b

pub fold-IsBuilding :
    (os : Os) (d : Disk) (existing : Option Bytes) (ts : List Token) (p : Patch)
    → IsBuilding d p
    → IsBuilding d (fold (take_token os existing) p ts)
fold-IsBuilding os d existing [] p b = b
fold-IsBuilding os d existing (t ∷ ts) p b =
    fold-IsBuilding os d existing ts (take_token os existing t p)
      (take_token-IsBuilding os d existing t p b)

-- What is committed was named by a token.
abbrev pub IsNamed : List Token → Option (WireTime × Bytes) → Type 0
IsNamed ts none = Unit
IsNamed ts (some (mtime, hash)) = IsIn (commit mtime hash) ts

IsNamed-more :
    (t : Token) (ts : List Token) (o : Option (WireTime × Bytes))
    → IsNamed ts o
    → IsNamed (snoc t ts) o
IsNamed-more t ts none h = tt
IsNamed-more t ts (some (mtime, hash)) h = IsIn-append_left (commit mtime hash) ts (t ∷ []) h

after_copy-committed : (o : Outcome) (p : Patch) → (after_copy o p).committed ≡ p.committed
unfolding after_copy
after_copy-committed (ok u, d, h) p = refl
after_copy-committed (err e, d, h) p = refl

take_copy-committed :
    (os : Os) (failure : Option Error) (existing : Option Bytes) (opened : Bool) (offset len : ℕ)
    (p : Patch)
    → (take_copy os failure existing opened offset len p).committed ≡ p.committed
unfolding take_copy
take_copy-committed os (some e) existing opened offset len p = refl
take_copy-committed os none none opened offset len p = refl
take_copy-committed os none (some source) false offset len p = refl
take_copy-committed os none (some source) true offset len p =
    after_copy-committed (copy_range os source offset len p.disk p.hasher) p

take_literal-committed :
    (os : Os) (opened : Bool) (bytes : Bytes) (p : Patch)
    → (take_literal os opened bytes p).committed ≡ p.committed
unfolding take_literal
take_literal-committed os false bytes p = refl
take_literal-committed os true bytes p = go (write_all os bytes p.disk)
  where
    go : (w : Result (Unit {0}) × Disk) → (after_write w bytes p).committed ≡ p.committed
    go (ok u, d) = unfold after_write in refl
    go (err e, d) = unfold after_write in refl

abort_patch-committed :
    (failure : Option Error) (reason : Text) (p : Patch)
    → (abort_patch failure reason p).committed ≡ p.committed
unfolding abort_patch
abort_patch-committed (some e) reason p = refl
abort_patch-committed none reason p = refl

take_token-IsNamed :
    (os : Os) (existing : Option Bytes) (t : Token) (us : List Token) (p : Patch)
    → IsNamed us p.committed
    → IsNamed (snoc t us) (take_token os existing t p).committed
unfolding take_token
take_token-IsNamed os existing (copy offset len) us p h =
    subst (IsNamed (snoc (copy offset len) us))
      (sym (take_copy-committed os p.failure existing p.opened offset len p))
      (IsNamed-more (copy offset len) us p.committed h)
take_token-IsNamed os existing (literal bytes) us p h =
    subst (IsNamed (snoc (literal bytes) us)) (sym (take_literal-committed os p.opened bytes p))
      (IsNamed-more (literal bytes) us p.committed h)
take_token-IsNamed os existing (commit mtime hash) us p h =
    IsIn-append_right (commit mtime hash) us (commit mtime hash ∷ []) (inl refl)
take_token-IsNamed os existing (abort reason) us p h =
    subst (IsNamed (snoc (abort reason) us)) (sym (abort_patch-committed p.failure reason p))
      (IsNamed-more (abort reason) us p.committed h)

pub fold-IsNamed :
    (os : Os) (existing : Option Bytes) (ts us : List Token) (p : Patch)
    → IsNamed us p.committed
    → IsNamed (us ++ ts) (fold (take_token os existing) p ts).committed
fold-IsNamed os existing [] us p h =
    subst (λ (x : List Token). IsNamed x p.committed) (sym (append-nil us)) h
fold-IsNamed os existing (t ∷ ts) us p h =
    subst (λ (x : List Token). IsNamed x (fold (take_token os existing) p (t ∷ ts)).committed)
      (append_assoc us (t ∷ []) ts)
      (fold-IsNamed os existing ts (snoc t us) (take_token os existing t p)
        (take_token-IsNamed os existing t us p h))
