-- ===== src/Examples/Delta.antt =====
-- Runs of the delta transfer on small files.
use treesync.Prelude.{
  ◌*◌, List, [], ◌∷◌, some, ◌≡◌, refl, sym, ◌∙◌, arith, All, drop, length-drop, length-take_le,
  take_all,
}
use treesync.FilePath.{Bytes}
use treesync.Error.{ok}
use treesync.Remote.Token.{Token}
use treesync.Remote.Token.Meaning.{all_bytes, Fits, range}
use treesync.Remote.Signature.{signature_of}
use treesync.Remote.Matcher.{Matcher, Read, bytes, new}
use treesync.Remote.Matcher.Loop.{all_tokens}
use treesync.Remote.Matcher.Sound.{content_of}
use treesync.Remote.Matcher.Window.{NoCollision}
use treesync.Remote.Matcher.Whole.{all_tokens-rebuild}

-- A digest that tells any two blocks of two bytes apart.
abbrev pub itself : Bytes → Bytes
itself bs = bs

abbrev pub old_bytes : Bytes
old_bytes = 1 ∷ 2 ∷ 3 ∷ 4 ∷ []

abbrev pub new_bytes : Bytes
new_bytes = 9 ∷ 1 ∷ 2 ∷ 3 ∷ 4 ∷ 7 ∷ []

-- The source comes in two reads.
abbrev pub two_reads : List Read
two_reads = bytes (9 ∷ 1 ∷ []) ∷ bytes (2 ∷ 3 ∷ 4 ∷ 7 ∷ []) ∷ bytes [] ∷ []

pub two_reads-content : content_of two_reads ≡ some new_bytes
unfolding content_of
two_reads-content = refl

pub itself-NoCollision : NoCollision itself old_bytes new_bytes 2
itself-NoCollision before window after block e l inside same =
    sym (take_all 16 window (omega (arith, l)))
    ∙ same
    ∙ take_all 16 (range old_bytes (block * 2) 2) (
        omega (
          arith,
          length-take_le 2 (drop (block * 2) old_bytes)
              (omega (arith, inside, length-drop (block * 2) old_bytes)),
        ))

all_tokens-rebuild_example :
    (ts : List Token) × (r : Matcher) × (all_tokens itself 7
        (new two_reads (signature_of itself 2 old_bytes))
      ≡ ok (some (ts, r)))
    × (all_bytes old_bytes ts ≡ new_bytes)
    × All (Fits old_bytes) ts
    × (r.hasher ≡ new_bytes)
all_tokens-rebuild_example =
    all_tokens-rebuild itself old_bytes new_bytes 2 7 two_reads (omega arith) two_reads-content
      itself-NoCollision (omega arith)
