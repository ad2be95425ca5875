-- ===== src/Remote/Signature/Wire.antt =====
-- crates/treesync/src/remote/protocol.rs: a signature on the wire, and `Agent::signature` of
-- crates/treesync/src/remote/agent.rs. What the path resolves to and reads as are parameters.
use treesync.Prelude.{
  ℕ, zero, suc, List, [], ◌∷◌, Bool, true, false, Option, none, some, ◌≡◌, refl, ap,
}
use treesync.FilePath.{Bytes}
use treesync.Error.{codes, internal, Result, ok, err, ◌>>=◌}
use treesync.Remote.Message.{WireSignature, Response, signature}
use treesync.Remote.Signature.{BlockSig, Signature, signature_of}

unfoldable pub wire_blocks : List BlockSig → List (ℕ × Bytes)
wire_blocks [] = []
wire_blocks (b ∷ bs) = (b.weak, b.strong) ∷ wire_blocks bs

unfoldable pub into_blocks : List (ℕ × Bytes) → List BlockSig
into_blocks [] = []
into_blocks ((weak, strong) ∷ bs) = record { weak = weak; strong = strong } ∷ into_blocks bs

-- `WireSignature::new`
unfoldable pub wire_signature : Signature → WireSignature
unfolding wire_blocks
wire_signature s = record { block_size = s.block_size; blocks = wire_blocks s.blocks }

-- `WireSignature::into_signature`
unfoldable pub into_signature : WireSignature → Signature
unfolding into_blocks
into_signature w = record { block_size = w.block_size; blocks = into_blocks w.blocks }

into_blocks-wire_blocks : (bs : List BlockSig) → into_blocks (wire_blocks bs) ≡ bs
unfolding into_blocks wire_blocks
into_blocks-wire_blocks [] = refl
into_blocks-wire_blocks (b ∷ bs) = ap (λ (x : List BlockSig). b ∷ x) (into_blocks-wire_blocks bs)

-- A signature is the same behind the wire.
into_signature-wire_signature : (s : Signature) → into_signature (wire_signature s) ≡ s
unfolding into_signature wire_signature
into_signature-wire_signature s =
    ap (λ (bs : List BlockSig). record s { blocks = bs }) (into_blocks-wire_blocks s.blocks)

-- `Agent::signature`: `content` is what the path reads as, none where nothing is there.
unfoldable pub agent_signature :
    (Bytes → Bytes) → Bool → Result (Option Bytes) → ℕ → Result Response
unfolding wire_signature signature_of
agent_signature blake3 root_exists content zero =
    err (internal (codes "a signature was asked for with a zero block size"))
agent_signature blake3 false content (suc n) =
    ok (signature (wire_signature (record { block_size = suc n; blocks = [] })))
agent_signature blake3 true content (suc n) = do
  found ← content
  ok (elim found [
    | none ↦ signature (wire_signature (record { block_size = suc n; blocks = [] }))
    | some bytes ↦ signature (wire_signature (signature_of blake3 (suc n) bytes))
  ])
