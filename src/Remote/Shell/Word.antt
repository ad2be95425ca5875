-- ===== src/Remote/Shell/Word.antt =====
-- crates/treesync/src/remote/ssh.rs: `shell_quote`, and how a POSIX shell reads a word.
use treesync.Prelude.{
  ℕ, [], ◌∷◌, ◌++◌, Bool, true, Bool-cases, ◌||◌, Option, none, some, ◌≡◌, refl, ap, ◌∙◌, inl, inr,
  arith, leb, ◌&&◌, ◌==◌, nat_eq, if◌then◌else◌, append_assoc, sym, beq→eq,
}
use treesync.Error.{Text}
use treesync.Remote.Shell.{escape, shell_quote}

-- Letters, digits and `-`, `.`, `/`, `_`: they stand for themselves outside quotes.
abbrev pub is_plain : ℕ → Bool
is_plain c =
    leb b'a' c && leb c b'z' || leb b'A' c && leb c b'Z' || leb b'-' c && leb c b'9' || c == b'_'

abbrev pub put : ℕ → Option (Text × Text) → Option (Text × Text)
put c none = none
put c (some (word, rest)) = some (c ∷ word, rest)

-- Outside quotes, between single quotes, and right behind a backslash.
pub data Mode : Type 0 where
  bare quoted escaping : Mode

-- The first word of a command by the rules of POSIX for single quotes and the backslash, and what
-- is left behind it; `none` where a quote stays open or a character has a meaning of its own, so
-- that the word is not taken literally.
unfoldable pub first_word : Mode → Text → Option (Text × Text)
first_word bare [] = some ([], [])
first_word quoted [] = none
first_word escaping [] = none
first_word quoted (c ∷ cs) =
    let closed = first_word bare cs in
    let inside = first_word quoted cs in if c == b'\'' then closed else put c inside
first_word escaping (c ∷ cs) =
    let after = first_word bare cs in if c == b'\n' then after else put c after
first_word bare (c ∷ cs) =
    let opened = first_word quoted cs in
    let escaped = first_word escaping cs in
    let next = first_word bare cs in
    if c == b' '
    then some ([], c ∷ cs)
    else if c == b'\''
    then opened
    else if c == b'\\'
    then escaped
    else if is_plain c
    then put c next
    else none

-- The command ends, or the word does.
abbrev pub ends_word : Text → Bool
ends_word [] = true
ends_word (c ∷ cs) = c == b' '

first_word-end : (rest : Text) → ends_word rest ≡ true → first_word bare rest ≡ some ([], rest)
unfolding first_word
first_word-end [] h = refl
first_word-end (c ∷ cs) h = ground (arith, h)

first_word-escape :
    (value rest : Text)
    → ends_word rest ≡ true
    → first_word quoted (escape value ++ (b'\'' ∷ rest)) ≡ some (value, rest)
unfolding first_word escape
first_word-escape [] rest h = first_word-end rest h
first_word-escape (c ∷ cs) rest h = elim (Bool-cases (c == b'\'')) [
  | inl q ↦ rw q (
      ap (put (b'\'')) (first_word-escape cs rest h)
      ∙ ap (λ (x : ℕ). some (x ∷ cs, rest)) (sym (beq→eq c (b'\'') q)))
  | inr q ↦ rw q (ground (arith, q, first_word-escape cs rest h))
]

-- A quoted text is one word of the remote command, and that word is the text itself, whatever
-- quotes, blanks, `$` or backslashes it has: a POSIX shell expands nothing in it and reads on right
-- behind it, where a blank or the end of the command follows.
pub first_word-shell_quote :
    (value rest : Text)
    → ends_word rest ≡ true
    → first_word bare (shell_quote value ++ rest) ≡ some (value, rest)
unfolding shell_quote first_word
first_word-shell_quote value rest h =
    rw (append_assoc (escape value) (b'\'' ∷ []) rest) (first_word-escape value rest h)
