-- ===== src/Remote/Agent/File/Whole.antt =====
-- crates/treesync/src/remote/agent.rs: what `receive_file` leaves at the destination.
use treesync.Prelude.{ℕ, List, [], Bool, true, false, Option, none, some, ◌≡◌, refl, sym, ◌∙◌, IsIn}
use mathlib.Core.Path.{subst}
use treesync.Error.{Error, Result, ok, err}
use treesync.Remote.Wire.{WireTime, into_system_time}
use treesync.Remote.Frame.{Codec, Zstd, Stream}
use treesync.Remote.Message.{Chunk, commit, Response, done}
use treesync.Remote.Agent.{Disk, Os, regular, answer, open_temporary, discard}
use treesync.Remote.Agent.Copied.{Holds}
use treesync.Remote.Agent.Opened.{open_temporary-IsWidened}
use treesync.Remote.Agent.Frames.{
  chunk_ends, Received, finished, died, out_of_fuel, refused, discard_transfer,
}
use treesync.Remote.Agent.Aligned.{fold, map_received, recorded, receive-recorded}
use treesync.Remote.Agent.Patch.{publish, end_transfer}
use treesync.Remote.Agent.Committed.{IsPublished, publish-IsPublished}
use treesync.Remote.Agent.Publish.{restore_mode-destination, discard-Kept}
use treesync.Remote.Agent.File.{
  Incoming, take_chunk, incoming, open_file, commit_file, conclude_file, receive_file,
}
use treesync.Remote.Agent.File.Arriving.{content_in, IsArriving, fold-IsArriving}

-- What the destination is, by the answer: the content of the whole transfer with the timestamp that
-- it commits, or what it was.
abbrev pub IsReceived : Disk → Received (List Chunk) → Result Response → Disk → Type 0
IsReceived d (finished cs) (ok response) r =
    (response ≡ done)
    × (mtime : WireTime) × (r.destination
        ≡ some (regular (content_in cs) (some (into_system_time mtime))))
    × IsIn (commit mtime) cs
IsReceived d (died e cs) (ok response) r = ⊥
IsReceived d (out_of_fuel cs) (ok response) r = ⊥
IsReceived d received (err e) r = r.destination ≡ d.destination

opened-IsArriving :
    (d : Disk) (opened : Result (Unit {0})) (r : Disk)
    → r.destination ≡ d.destination
    → (opened ≡ ok tt → Holds r [])
    → IsArriving d [] (incoming opened r)
unfolding incoming
opened-IsArriving d (ok u) r k t = record {
  untouched = k;
  open_unless_failed = λ h. refl;
  holds = λ h. t refl;
  named = λ m h. absurd (cc h);
}
opened-IsArriving d (err e) r k t = record {
  untouched = k;
  open_unless_failed = λ h. absurd (cc h);
  holds = λ h. absurd (cc h);
  named = λ m h. absurd (cc h);
}

open_file-IsArriving :
    (os : Os) (made : Result (Unit {0})) (d : Disk) → IsArriving d [] (open_file os made d).0
unfolding open_file
open_file-IsArriving os (err e) d = opened-IsArriving d (err e) d refl (λ h. absurd (cc h))
open_file-IsArriving os (ok u) d =
    let (opened, original, r) = open_temporary os d in
    let (k, m, t) = open_temporary-IsWidened os d in opened-IsArriving d opened r k t

-- What `outcome` comes to, with the content `bs` in the temporary.
abbrev IsCommitted : Disk → List Chunk → Result (Unit {0}) × Disk → Type 0
IsCommitted d cs (ok u, r) =
    (mtime : WireTime) × (r.destination
      ≡ some (regular (content_in cs) (some (into_system_time mtime))))
    × IsIn (commit mtime) cs
IsCommitted d cs (err e, r) = r.destination ≡ d.destination

published-IsCommitted :
    (d : Disk) (cs : List Chunk) (mtime : WireTime) (w : Result (Unit {0}) × Disk)
    → IsIn (commit mtime) cs
    → IsPublished d (content_in cs) mtime w
    → IsCommitted d cs w
published-IsCommitted d cs mtime (ok u, r) i h = (mtime, h.0, i)
published-IsCommitted d cs mtime (err e, r) i h = h.0

commit_file-IsCommitted :
    (os : Os) (d : Disk) (cs : List Chunk) (failure : Option Error) (committed : Option WireTime)
    (opened : Bool)
    → (failure ≡ none → Holds d (content_in cs))
    → ((mtime : WireTime) → committed ≡ some mtime → IsIn (commit mtime) cs)
    → IsCommitted d cs (commit_file os failure committed opened d)
unfolding commit_file
commit_file-IsCommitted os d cs (some e) committed opened t i = refl
commit_file-IsCommitted os d cs none none opened t i = refl
commit_file-IsCommitted os d cs none (some mtime) false t i = refl
commit_file-IsCommitted os d cs none (some mtime) true t i =
    published-IsCommitted d cs mtime (publish os mtime d) (i mtime refl)
      (publish-IsPublished os d (content_in cs) mtime (t refl))

end_transfer-IsReceived :
    (os : Os) (original : Option ℕ) (d b : Disk) (cs : List Chunk) (w : Result (Unit {0}) × Disk)
    → b.destination ≡ d.destination
    → IsCommitted b cs w
    → IsReceived d (finished cs) (end_transfer os original w).0 (end_transfer os original w).1
unfolding end_transfer
end_transfer-IsReceived os original d b cs (ok u, r) k (mtime, e, i) =
    (refl, mtime, restore_mode-destination os original r ∙ e, i)
end_transfer-IsReceived os original d b cs (err x, r) k h =
    restore_mode-destination os original (discard os r) ∙ (discard-Kept os r).0 ∙ h ∙ k

abbrev IsAnswer : Disk → Received (List Chunk) × Stream → Result Response × Stream × Disk → Type 0
IsAnswer d r (response, rest, t) = IsReceived d r.0 response t × (rest ≡ r.1)

conclude_file-IsAnswer :
    (os : Os) (d : Disk) (p : Incoming) (original : Option ℕ) (r : Received (List Chunk) × Stream)
    → IsArriving d [] p
    → IsAnswer d r (conclude_file os original (map_received (fold (take_chunk os) p) r))
unfolding conclude_file
conclude_file-IsAnswer os d p original (finished cs, rest) a =
    let q : Incoming = fold (take_chunk os) p cs in
    let b = fold-IsArriving os d cs [] p a in
    (
      end_transfer-IsReceived os original d q.disk cs _ b.untouched
          (commit_file-IsCommitted os q.disk cs q.failure q.committed q.opened b.holds b.named),
      refl,
    )
conclude_file-IsAnswer os d p original (died e cs, rest) a =
    let q : Incoming = fold (take_chunk os) p cs in
    (
      restore_mode-destination os original (discard os q.disk)
          ∙ (discard-Kept os q.disk).0
          ∙ (fold-IsArriving os d cs [] p a).untouched,
      refl,
    )
conclude_file-IsAnswer os d p original (out_of_fuel cs, rest) a = (
  restore_mode-destination os original (fold (take_chunk os) p cs).disk
      ∙ (fold-IsArriving os d cs [] p a).untouched,
  refl,
)

refused-IsAnswer :
    (d : Disk) (error : Error) (codec : Codec Chunk) (zstd : Zstd)
    (r : Received (List Chunk) × Stream)
    → (let (response, rest) = refused codec zstd chunk_ends error (map_received (λ cs. tt) r) in
        IsAnswer d r (response, rest, d))
unfolding refused
refused-IsAnswer d error codec zstd (finished cs, rest) = (refl, refl)
refused-IsAnswer d error codec zstd (died e cs, rest) = (refl, refl)
refused-IsAnswer d error codec zstd (out_of_fuel cs, rest) = (refl, refl)

-- Of a whole file, whatever the operating system answers, whatever failed and whatever the stream
-- holds: an answer without an error is `Ok`, the transfer came to its last frame, and the
-- destination is the content of all its chunks, dated with what `into_system_time` makes of the time
-- that it commits; with an error the destination is what it was. Either way the stream stands where the frames of the transfer end.
pub receive_file-publish :
    (codec : Codec Chunk) (zstd : Zstd) (os : Os) (paths : Result (Unit {0})) (s : Stream)
    (d : Disk)
    → (let (response, rest, r) = receive_file codec zstd os paths s d in
        IsReceived d (recorded codec zstd chunk_ends s).0 response r
        × (rest ≡ (recorded codec zstd chunk_ends s).1))
unfolding receive_file discard_transfer
receive_file-publish codec zstd os (err error) s d =
    subst
      (λ (r : Received (Unit {0}) × Stream). IsAnswer d (recorded codec zstd chunk_ends s) (
        (refused codec zstd chunk_ends {A = Response} error r).0,
        (refused codec zstd chunk_ends {A = Response} error r).1,
        d,
      ))
      (sym (receive-recorded codec zstd chunk_ends (λ f u. u) s tt))
      (refused-IsAnswer d error codec zstd (recorded codec zstd chunk_ends s))
receive_file-publish codec zstd os (ok u) s d =
    let (p, original) = open_file os (answer (os.makes_parent d)) d in
    subst
      (λ (r : Received Incoming × Stream).
        IsAnswer d (recorded codec zstd chunk_ends s) (conclude_file os original r))
      (sym (receive-recorded codec zstd chunk_ends (take_chunk os) s p))
      (conclude_file-IsAnswer os d p original (recorded codec zstd chunk_ends s)
        (open_file-IsArriving os (answer (os.makes_parent d)) d))
