-- ===== src/Remote/Shell.antt =====
-- crates/treesync/src/remote/ssh.rs: how a text is made one word of a remote shell command.
pub mod Word
use treesync.Prelude.{List, [], ◌∷◌, ◌++◌, Bool, true, false, ◌==◌, nat_eq, if◌then◌else◌}
use treesync.Error.{Text}

-- `'\''`
abbrev pub escaped_quote : Text
escaped_quote = b'\'' ∷ b'\\' ∷ b'\'' ∷ b'\'' ∷ []

-- `value.replace('\'', r"'\''")`
unfoldable pub escape : Text → Text
escape [] = []
escape (c ∷ cs) = if c == b'\'' then escaped_quote ++ escape cs else c ∷ escape cs

unfoldable pub shell_quote : Text → Text
unfolding escape
shell_quote value = b'\'' ∷ (escape value ++ (b'\'' ∷ []))
