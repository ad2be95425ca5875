-- ===== src/Remote/Matcher/Move.antt =====
-- crates/treesync/src/remote/delta.rs: what `Matcher` does with one window, one byte and the tail.
use treesync.Prelude.{
  ℕ, ◌+◌, ◌-◌, ◌*◌, [], ◌∷◌, ◌++◌, Bool, true, not, none, some, ltb, length, get_elem?, ◌==◌,
  nat_eq, list_eq, if◌then◌else◌,
}
use treesync.FilePath.{Bytes}
use treesync.Remote.Token.{copy, literal}
use treesync.Remote.Matcher.{Matcher, ahead}

unfoldable pub flush_run : Matcher → Matcher
flush_run m = elim m.run [
  | none ↦ m
  | some (offset, len) ↦ record m { run = none; ready = m.ready ++ (copy offset len ∷ []) }
]

unfoldable pub flush_literal : Matcher → Matcher
flush_literal m = elim m.literal [
  | [] ↦ m
  | b ∷ bs ↦ record m { literal = []; ready = m.ready ++ (literal (b ∷ bs) ∷ []) }
]

-- The run that a matched block leads to, and whether the open one is flushed first.
unfoldable pub extend_run : ℕ → Matcher → Matcher
unfolding flush_run
extend_run block m =
    let offset = block * m.block_size in
    elim m.run [
      | none ↦ record m { run = some (offset, m.block_size) }
      | some (start, run) ↦
          if start + run == offset
          then record m { run = some (start, run + m.block_size) }
          else record (flush_run m) { run = some (offset, m.block_size) }
    ]

unfoldable pub flush_run_if_no_literal : Matcher → Matcher
unfolding flush_run
flush_run_if_no_literal m = elim m.literal [ [] ↦ flush_run m | _ ∷ _ ↦ m ]

-- A matched window: literal before copy.
unfoldable pub matched : ℕ → Matcher → Matcher
unfolding extend_run flush_literal
matched block m =
    let r = extend_run block (flush_literal m) in
    record r { pos = r.pos + r.block_size; rolling = none }

-- A byte that starts no match: copy before literal.
unfoldable pub passed : ℕ → Matcher → Matcher
unfolding flush_run_if_no_literal
passed out m =
    let r = flush_run_if_no_literal m in
    record r { literal = r.literal ++ (out ∷ []); pos = r.pos + 1 }

-- `self.buffer[i]`; the code never looks past the end.
unfoldable pub byte_at : ℕ → Bytes → ℕ
byte_at i bs = elim (get_elem? bs i) [ none ↦ 0 | some b ↦ b ]

abbrev pub has_window : Matcher → Bool
has_window m = not (ltb (length m.buffer - m.pos) m.block_size)

-- What is left of the buffer becomes literal.
unfoldable pub take_tail : Bytes → Matcher → Matcher
unfolding flush_run_if_no_literal
take_tail [] m = m
take_tail (b ∷ bs) m =
    let r = flush_run_if_no_literal m in
    record r { literal = r.literal ++ (b ∷ bs); pos = length r.buffer }

-- Nothing left is long enough to match a block.
unfoldable pub finish : Matcher → Matcher
unfolding take_tail flush_run flush_literal
finish m = record (flush_literal (flush_run (take_tail (ahead m) m))) { finished = true }
