-- ===== src/Remote/Agent/File/Arriving.antt =====
-- crates/treesync/src/remote/agent.rs: the files while `receive_file` takes chunks.
use treesync.Prelude.{
  List, [], ◌∷◌, ◌++◌, Bool, true, false, Option, none, some, ◌≡◌, refl, sym, ap, ◌∙◌, inl, IsIn,
  IsIn-append_left, IsIn-append_right, append-nil, append_assoc,
}
use mathlib.Core.Path.{subst}
use mathlib.Core.Option.{some-injective}
use treesync.FilePath.{Bytes}
use treesync.Error.{Text, Error, Result, ok, err}
use treesync.Remote.Wire.{WireTime}
use treesync.Remote.Message.{Chunk, data_of, commit, abort}
use treesync.Remote.Agent.{Disk, Os, write_all}
use treesync.Remote.Agent.Copied.{Kept, Holds, write_all-Kept, write_all-Holds}
use treesync.Remote.Agent.Aligned.{fold, snoc}
use treesync.Remote.Agent.File.{Incoming, after_chunk, take_data, abort_file, take_chunk}

-- The content that chunks carry.
abbrev pub content_in : List Chunk → Bytes
content_in [] = []
content_in (data_of bytes ∷ cs) = bytes ++ content_in cs
content_in (commit mtime ∷ cs) = content_in cs
content_in (abort reason ∷ cs) = content_in cs

-- As long as nothing failed, the temporary is open and holds the content so far, and a timestamp
-- was committed only by a chunk.
pub record IsArriving (d : Disk) (cs : List Chunk) (p : Incoming) : Type 0 where
  pub untouched : p.disk.destination ≡ d.destination
  pub open_unless_failed : p.failure ≡ none → p.opened ≡ true
  pub holds : p.failure ≡ none → Holds p.disk (content_in cs)
  pub named : (mtime : WireTime) → p.committed ≡ some mtime → IsIn (commit mtime) cs

content_in-append : (cs es : List Chunk) → content_in (cs ++ es) ≡ content_in cs ++ content_in es
content_in-append [] es = refl
content_in-append (data_of bytes ∷ cs) es =
    ap (λ (x : Bytes). bytes ++ x) (content_in-append cs es)
    ∙ sym (append_assoc bytes (content_in cs) (content_in es))
content_in-append (commit mtime ∷ cs) es = content_in-append cs es
content_in-append (abort reason ∷ cs) es = content_in-append cs es

-- A chunk that carries nothing.
same_content :
    (cs : List Chunk) (c : Chunk)
    → content_in (c ∷ []) ≡ []
    → content_in cs ≡ content_in (snoc c cs)
same_content cs c e =
    sym (append-nil (content_in cs))
    ∙ ap (λ (x : Bytes). content_in cs ++ x) (sym e)
    ∙ sym (content_in-append cs (c ∷ []))

failed-IsArriving :
    (d : Disk) (cs es : List Chunk) (p q : Incoming) (e : Error)
    → IsArriving d cs p
    → q.disk.destination ≡ p.disk.destination
    → q.failure ≡ some e
    → q.committed ≡ p.committed
    → IsArriving d (cs ++ es) q
failed-IsArriving d cs es p q e a k f c = record {
  untouched = k ∙ a.untouched;
  open_unless_failed = λ h. absurd (cc (h, f));
  holds = λ h. absurd (cc (h, f));
  named = λ t h. IsIn-append_left (commit t) cs es (a.named t (sym c ∙ h));
}

after_chunk-IsArriving :
    (d : Disk) (cs : List Chunk) (bytes : Bytes) (p : Incoming) (w : Result (Unit {0}) × Disk)
    → IsArriving d cs p
    → Kept p.disk w.1
    → (p.failure ≡ none → w.0 ≡ ok tt → Holds w.1 (content_in cs ++ bytes))
    → IsArriving d (snoc (data_of bytes) cs) (after_chunk w p)
unfolding after_chunk
after_chunk-IsArriving d cs bytes p (err e, r) a k t =
    failed-IsArriving d cs (data_of bytes ∷ []) p _ e a k.0 refl refl
after_chunk-IsArriving d cs bytes p (ok u, r) a k t = record {
  untouched = k.0 ∙ a.untouched;
  open_unless_failed = a.open_unless_failed;
  holds = λ h.
      subst (Holds r)
        (ap (λ (x : Bytes). content_in cs ++ x) (sym (append-nil bytes))
          ∙ sym (content_in-append cs (data_of bytes ∷ [])))
        (t h refl);
  named = λ m h. IsIn-append_left (commit m) cs (data_of bytes ∷ []) (a.named m h);
}

take_data-IsArriving :
    (os : Os) (d : Disk) (cs : List Chunk) (opened : Bool) (bytes : Bytes) (p : Incoming)
    → p.opened ≡ opened
    → IsArriving d cs p
    → IsArriving d (snoc (data_of bytes) cs) (take_data os opened bytes p)
unfolding take_data
take_data-IsArriving os d cs false bytes p o a = record {
  untouched = a.untouched;
  open_unless_failed = a.open_unless_failed;
  holds = λ h. absurd (cc (o, a.open_unless_failed h));
  named = λ m h. IsIn-append_left (commit m) cs (data_of bytes ∷ []) (a.named m h);
}
take_data-IsArriving os d cs true bytes p o a =
    after_chunk-IsArriving d cs bytes p (write_all os bytes p.disk) a
      (write_all-Kept os bytes p.disk)
      (λ h e. write_all-Holds os p.disk (content_in cs) bytes (a.holds h) e)

abort_file-IsArriving :
    (d : Disk) (cs : List Chunk) (failure : Option Error) (reason : Text) (p : Incoming)
    → p.failure ≡ failure
    → IsArriving d cs p
    → IsArriving d (snoc (abort reason) cs) (abort_file failure reason p)
unfolding abort_file
abort_file-IsArriving d cs (some e) reason p f a =
    failed-IsArriving d cs (abort reason ∷ []) p p e a refl f refl
abort_file-IsArriving d cs none reason p f a =
    failed-IsArriving d cs (abort reason ∷ []) p _ _ a refl refl refl

take_chunk-IsArriving :
    (os : Os) (d : Disk) (cs : List Chunk) (c : Chunk) (p : Incoming)
    → IsArriving d cs p
    → IsArriving d (snoc c cs) (take_chunk os c p)
unfolding take_chunk
take_chunk-IsArriving os d cs (data_of bytes) p a =
    take_data-IsArriving os d cs p.opened bytes p refl a
take_chunk-IsArriving os d cs (abort reason) p a =
    abort_file-IsArriving d cs p.failure reason p refl a
take_chunk-IsArriving os d cs (commit mtime) p a = record {
  untouched = a.untouched;
  open_unless_failed = a.open_unless_failed;
  holds = λ h. subst (Holds p.disk) (same_content cs (commit mtime) refl) (a.holds h);
  named = λ m h.
      IsIn-append_right (commit m) cs (commit mtime ∷ [])
        (inl (ap commit (sym (some-injective _ _ h))));
}

pub fold-IsArriving :
    (os : Os) (d : Disk) (cs es : List Chunk) (p : Incoming)
    → IsArriving d es p
    → IsArriving d (es ++ cs) (fold (take_chunk os) p cs)
fold-IsArriving os d [] es p a =
    subst (λ (x : List Chunk). IsArriving d x p) (sym (append-nil es)) a
fold-IsArriving os d (c ∷ cs) es p a =
    subst (λ (x : List Chunk). IsArriving d x (fold (take_chunk os) p (c ∷ cs)))
      (append_assoc es (c ∷ []) cs)
      (fold-IsArriving os d cs (snoc c es) (take_chunk os c p)
        (take_chunk-IsArriving os d es c p a))
