-- ===== src/Remote/Token/Meaning.antt =====
-- What a list of tokens stands for: bytes, given the file that the target holds.
use treesync.Prelude.{
  ℕ, ◌+◌, ◌≤◌, List, [], ◌∷◌, ◌++◌, ◌≡◌, ◌∙◌, sym, ap, append_assoc, All, length, take, drop,
}
use treesync.FilePath.{Bytes}
use treesync.Remote.Token.{Token, copy, literal, commit, abort}

-- The bytes of a range of the old file.
abbrev pub range : Bytes → ℕ → ℕ → Bytes
range old offset len = take len (drop offset old)

abbrev pub bytes_of : Bytes → Token → Bytes
bytes_of old (copy offset len) = range old offset len
bytes_of old (literal bs) = bs
bytes_of old (commit mtime hash) = []
bytes_of old (abort reason) = []

abbrev pub all_bytes : Bytes → List Token → Bytes
all_bytes old [] = []
all_bytes old (t ∷ ts) = bytes_of old t ++ all_bytes old ts

-- The token carries content, at least one byte, and what it reuses is there.
abbrev pub Fits : Bytes → Token → Type 0
Fits old (copy offset len) = (offset + len ≤ length old) × (1 ≤ len)
Fits old (literal bs) = 1 ≤ length bs
Fits old (commit mtime hash) = ⊥
Fits old (abort reason) = ⊥

pub all_bytes-snoc :
    (old : Bytes) (ts : List Token) (t : Token) (rest : Bytes)
    → all_bytes old (ts ++ (t ∷ [])) ++ rest ≡ all_bytes old ts ++ (bytes_of old t ++ rest)
all_bytes-snoc old [] t rest = append_assoc (bytes_of old t) [] rest
all_bytes-snoc old (s ∷ ts) t rest =
    append_assoc (bytes_of old s) (all_bytes old (ts ++ (t ∷ []))) rest
    ∙ ap (λ (x : Bytes). bytes_of old s ++ x) (all_bytes-snoc old ts t rest)
    ∙ sym (append_assoc (bytes_of old s) (all_bytes old ts) (bytes_of old t ++ rest))

pub All-snoc :
    {A : Type 0} (P : A → Type 0) (xs : List A) (x : A) → All P xs → P x → All P (xs ++ (x ∷ []))
All-snoc P [] x h p = (p, tt)
All-snoc P (y ∷ xs) x (q, h) p = (q, All-snoc P xs x h p)
