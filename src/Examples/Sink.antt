-- ===== src/Examples/Sink.antt =====
-- Paths and names that a local sink is given.
use treesync.Prelude.{ℕ, zero, suc, ◌≤◌, [], ◌∷◌, Bool, length, arith, ◌==◌, nat_eq}
use treesync.FilePath.{FilePath, Bytes, normal, component_eq}
use treesync.Sink.Local.{resolve, temporary_name, name_max}
use treesync.Sink.Local.Confined.{IsResolved, resolve-IsResolved}
use treesync.Sink.Local.Names.{length-temporary_name}
use treesync.Examples.Paths.{watched}

-- The way through /w/a is a symlink.
abbrev is_link : FilePath → Bool
is_link p = length p == 3

resolve-IsResolved_example :
    IsResolved is_link watched
      (normal (b'a' ∷ []) ∷ normal (b'x' ∷ []) ∷ [])
      (resolve is_link watched (normal (b'a' ∷ []) ∷ normal (b'x' ∷ []) ∷ []))
resolve-IsResolved_example =
    resolve-IsResolved is_link watched (normal (b'a' ∷ []) ∷ normal (b'x' ∷ []) ∷ [])

abbrev repeat : ℕ → Bytes
repeat zero = []
repeat (suc n) = b'a' ∷ repeat n

-- A name as long as the file system takes, with a prefix of three bytes.
length-temporary_name_example :
    length (temporary_name (λ name. name) (b'.' ∷ b't' ∷ b'-' ∷ []) (repeat 255)) ≤ name_max
length-temporary_name_example =
    length-temporary_name (λ name. name) (b'.' ∷ b't' ∷ b'-' ∷ []) (repeat 255) (omega arith)
