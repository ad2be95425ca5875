-- ===== src/Remote/Agent/Publish.antt =====
-- crates/treesync/src/remote/agent.rs: what `receive_patch` leaves at the destination.
use treesync.Prelude.{
  ℕ, List, [], IsIn, Option, Option-cases, none, some, ◌≡◌, refl, sym, ◌∙◌, inl, inr, list_eq,
  nat_eq,
}
use mathlib.Core.Path.{subst}
use treesync.FilePath.{Bytes}
use treesync.Error.{Error, Result, ok, err}
use treesync.Remote.Wire.{WireTime, into_system_time}
use treesync.Remote.Token.{Token, commit}
use treesync.Remote.Frame.{Codec, Zstd, Stream}
use treesync.Remote.Message.{Response, done}
use treesync.Remote.Agent.{Disk, Os, regular, answer, restore_mode, discard}
use treesync.Remote.Agent.Copied.{Kept}
use treesync.Remote.Agent.Opened.{IsReady, open_patch-IsReady}
use treesync.Remote.Agent.Building.{IsBuilding, fold-IsBuilding, IsNamed, fold-IsNamed}
use treesync.Remote.Agent.Aligned.{fold, map_received, recorded, receive-recorded}
use treesync.Remote.Agent.Frames.{
  token_ends, Received, finished, died, out_of_fuel, refused, discard_transfer,
}
use treesync.Remote.Agent.Patch.{
  Patch, take_token, open_patch, commit_patch, end_transfer, conclude, receive_patch,
}
use treesync.Remote.Agent.Committed.{IsCommitted, commit_from-IsCommitted}

pub restore_mode-destination :
    (os : Os) (original : Option ℕ) (d : Disk)
    → (restore_mode os original d).destination ≡ d.destination
unfolding restore_mode
restore_mode-destination os none d = refl
restore_mode-destination os (some original) d = elim (Option-cases (os.changes_mode original d)) [
  | inl q ↦ rw (q, restore_mode)
  | inr (k, q) ↦ rw (q, restore_mode)
]

pub discard-Kept : (os : Os) (d : Disk) → Kept d (discard os d)
unfolding discard
discard-Kept os d = elim (Option-cases (os.removes d)) [
  | inl q ↦ rw (q, discard) (refl, refl)
  | inr (k, q) ↦ rw (q, discard) (refl, refl)
]

-- What the destination is, by the answer: a file that a token of `ts` commits, or what it was.
abbrev pub IsConcluded : (Bytes → Bytes) → List Token → Disk → Result Response → Disk → Type 0
IsConcluded blake3 ts d (ok response) r =
    (response ≡ done)
    × (content : Bytes) × (mtime : WireTime) × (r.destination
        ≡ some (regular content (some (into_system_time mtime))))
    × IsIn (commit mtime (blake3 content)) ts
IsConcluded blake3 ts d (err e) r = r.destination ≡ d.destination

end_transfer-IsConcluded :
    (os : Os) (blake3 : Bytes → Bytes) (original : Option ℕ) (ts : List Token) (d b : Disk)
    → (w : Result (Unit {0}) × Disk) → b.destination ≡ d.destination
    → IsCommitted blake3 ts b w
    → IsConcluded blake3 ts d (end_transfer os original w).0 (end_transfer os original w).1
unfolding end_transfer
end_transfer-IsConcluded os blake3 original ts d b (ok u, r) k (content, mtime, e, i, m) =
    (refl, content, mtime, restore_mode-destination os original r ∙ e, i)
end_transfer-IsConcluded os blake3 original ts d b (err x, r) k h =
    restore_mode-destination os original (discard os r) ∙ (discard-Kept os r).0 ∙ h.0 ∙ k

-- The frames of the transfer that stands on the stream.
abbrev pub frames_of : Received (List Token) → List Token
frames_of (finished ts) = ts
frames_of (died e ts) = ts
frames_of (out_of_fuel ts) = ts

pub ready-IsBuilding :
    (d : Disk) (p : Patch) (original : Option ℕ) → IsReady d (p, original) → IsBuilding p.disk p
ready-IsBuilding d p original ready = record {
  untouched = (refl, refl);
  open_unless_failed = ready.open_unless_failed;
  holds = ready.holds;
}

-- The destination of a transfer that ends without `outcome`.
left-destination :
    (os : Os) (existing : Option Bytes) (d : Disk) (p : Patch) (original : Option ℕ)
    (ts : List Token)
    → IsReady d (p, original)
    → (restore_mode os original (fold (take_token os existing) p ts).disk).destination
      ≡ d.destination
left-destination os existing d p original ts ready =
    restore_mode-destination os original (fold (take_token os existing) p ts).disk
    ∙ (fold-IsBuilding os p.disk existing ts p (ready-IsBuilding d p original ready)).untouched.0
    ∙ ready.same_destination

abbrev IsAnswer :
    (Bytes → Bytes)
    → Disk
    → Received (List Token) × Stream
    → Result Response × Stream × Disk
    → Type 0
IsAnswer blake3 d r (response, rest, t) =
    IsConcluded blake3 (frames_of r.0) d response t × (rest ≡ r.1)

conclude-IsAnswer :
    (os : Os) (blake3 : Bytes → Bytes) (existing : Option Bytes) (d : Disk) (p : Patch)
    (original : Option ℕ)
    → (r : Received (List Token) × Stream) → IsReady d (p, original)
    → IsAnswer blake3 d r
        (conclude os blake3 original (map_received (fold (take_token os existing) p) r))
unfolding conclude commit_patch
conclude-IsAnswer os blake3 existing d p original (finished ts, rest) ready =
    let built = fold-IsBuilding os p.disk existing ts p (ready-IsBuilding d p original ready) in
    let q : Patch = fold (take_token os existing) p ts in
    (
      end_transfer-IsConcluded os blake3 original ts d q.disk _
          (built.untouched.0 ∙ ready.same_destination)
          (commit_from-IsCommitted os blake3 ts q.failure q.committed q.opened q.hasher q.disk
            (fold-IsNamed os existing ts [] p (subst (IsNamed []) (sym ready.not_committed) tt))
            built.holds),
      refl,
    )
conclude-IsAnswer os blake3 existing d p original (died e ts, rest) ready =
    (left-destination os existing d p original ts ready, refl)
conclude-IsAnswer os blake3 existing d p original (out_of_fuel ts, rest) ready =
    (left-destination os existing d p original ts ready, refl)

refused-IsAnswer :
    (blake3 : Bytes → Bytes) (d : Disk) (error : Error) (codec : Codec Token) (zstd : Zstd)
    → (r : Received (List Token) × Stream)
    → (let (response, rest) = refused codec zstd token_ends error (map_received (λ ts. tt) r) in
        IsAnswer blake3 d r (response, rest, d))
unfolding refused
refused-IsAnswer blake3 d error codec zstd (finished ts, rest) = (refl, refl)
refused-IsAnswer blake3 d error codec zstd (died e ts, rest) = (refl, refl)
refused-IsAnswer blake3 d error codec zstd (out_of_fuel ts, rest) = (refl, refl)

-- Of a patch, whatever the operating system answers, whatever failed and whatever the stream holds:
-- an answer without an error is `Ok`, and then the destination is a file whose digest a `Commit` of
-- the stream names, dated with what `into_system_time` makes of the time in that `Commit`; with an
-- error the destination is what it was. Either way the stream stands where the frames of the
-- transfer end.
pub receive_patch-publish :
    (codec : Codec Token) (zstd : Zstd) (blake3 : Bytes → Bytes) (os : Os)
    → (paths : Result (Unit {0})) (resume_from : ℕ) (s : Stream) (d : Disk)
    → (let (response, rest, r) = receive_patch codec zstd blake3 os paths resume_from s d in
        IsConcluded blake3 (frames_of (recorded codec zstd token_ends s).0) d response r
        × (rest ≡ (recorded codec zstd token_ends s).1))
unfolding receive_patch discard_transfer
receive_patch-publish codec zstd blake3 os (err error) resume_from s d =
    subst
      (λ (r : Received (Unit {0}) × Stream). IsAnswer blake3 d (recorded codec zstd token_ends s) (
        (refused codec zstd token_ends {A = Response} error r).0,
        (refused codec zstd token_ends {A = Response} error r).1,
        d,
      ))
      (sym (receive-recorded codec zstd token_ends (λ f u. u) s tt))
      (refused-IsAnswer blake3 d error codec zstd (recorded codec zstd token_ends s))
receive_patch-publish codec zstd blake3 os (ok u) resume_from s d =
    let made = answer (os.makes_parent d) in
    let (p, original) = open_patch os resume_from made d in
    subst
      (λ (r : Received Patch × Stream).
        IsAnswer blake3 d (recorded codec zstd token_ends s) (conclude os blake3 original r))
      (sym (receive-recorded codec zstd token_ends (take_token os (os.existing d)) s p))
      (conclude-IsAnswer os blake3 (os.existing d) d p original (recorded codec zstd token_ends s)
        (open_patch-IsReady os resume_from made d))
