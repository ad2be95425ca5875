-- ===== src/Filter.antt =====
-- crates/treesync/src/reconcile/filter.rs. The crate `globset` is a parameter: which texts it takes
-- for patterns, which sets it builds, and which paths a pattern matches; a set matches a path when
-- one of its patterns does.
pub mod Laws
use treesync.Prelude.{
  ℕ, List, [], ◌∷◌, ◌++◌, Bool, true, false, not, ◌&&◌, ◌||◌, Option, none, some, ltb, leb, ◌==◌,
  nat_eq, if◌then◌else◌, ◌≡◌,
}
use treesync.FilePath.{FilePath}
use treesync.Error.{Text, codes, Error, config, Result, ok, err, require, ◌>>=◌, ◌>>◌}

pub record Globs : Type 0 where
  pub valid : Text → Bool
  pub buildable : List Text → Bool
  pub matches : Text → FilePath → Bool

-- `char::is_whitespace`, the property White_Space of Unicode.
unfoldable pub is_whitespace : ℕ → Bool
is_whitespace c =
    leb 9 c && leb c 13
    || c == 32
    || c == 0x85
    || c == 0xa0
    || c == 0x1680
    || leb 0x2000 c && leb c 0x200a
    || c == 0x2028
    || c == 0x2029
    || c == 0x202f
    || c == 0x205f
    || c == 0x3000

unfoldable pub trim_start : (ℕ → Bool) → Text → Text
trim_start test [] = []
trim_start test (c ∷ cs) = if test c then trim_start test cs else c ∷ cs

-- What is left once the trailing characters that pass the test are gone.
unfoldable pub trim_end : (ℕ → Bool) → Text → Text
trim_end test [] = []
trim_end test (c ∷ cs) = elim (trim_end test cs) [
  | [] ↦ if test c then [] else c ∷ []
  | d ∷ ds ↦ c ∷ d ∷ ds
]

unfoldable pub trim : Text → Text
unfolding is_whitespace trim_start trim_end
trim t = trim_end is_whitespace (trim_start is_whitespace t)

unfoldable pub is_slash : ℕ → Bool
is_slash c = c == b'/'

-- `pattern.trim().trim_end_matches('/')`
unfoldable pub trimmed : Text → Text
unfolding trim is_slash trim_end
trimmed pattern = trim_end is_slash (trim pattern)

unfoldable pub has_slash : Text → Bool
unfolding is_slash
has_slash [] = false
has_slash (c ∷ cs) = is_slash c || has_slash cs

unfoldable pub is_blank : Text → Bool
is_blank [] = true
is_blank (c ∷ cs) = false

abbrev pub stars : Text
stars = b'*' ∷ b'*' ∷ []

abbrev pub beneath : Text → Text
beneath t = t ++ (b'/' ∷ stars)

abbrev pub anywhere : Text → Text
anywhere t = stars ++ (b'/' ∷ t)

-- The globs that one pattern is expanded to: the path and what lies beneath, and both at any depth
-- if the pattern has no separator.
unfoldable pub expand : Text → List Text
unfolding has_slash
expand t =
    if has_slash t
    then t ∷ beneath t ∷ []
    else t ∷ beneath t ∷ anywhere t ∷ anywhere (beneath t) ∷ []

pub record Filter : Type 0 where
  pub patterns : List Text
  pub set : Option (List Text)

abbrev pub allow_all : Filter
allow_all = record { patterns = []; set = none }

module _ (globs : Globs) where
  -- `builder.add(Glob::new(..)?)` for each glob of a pattern.
  unfoldable pub add_globs : List Text → List Text → Result (List Text)
  add_globs builder [] = ok builder
  add_globs builder (g ∷ gs) = do
    require (globs.valid g) (config (codes "exclude pattern"))
    add_globs (builder ++ (g ∷ [])) gs

  -- The loop over the patterns.
  unfoldable pub add_patterns : List Text → List Text → Result (List Text)
  unfolding add_globs trimmed is_blank expand
  add_patterns builder [] = ok builder
  add_patterns builder (p ∷ ps) = do
    require (not (is_blank (trimmed p))) (config (codes "exclude pattern is empty"))
    more ← add_globs builder (expand (trimmed p))
    add_patterns more ps

  unfoldable pub built : List Text → List Text → Result Filter
  built patterns set =
      if globs.buildable set
      then ok (record { patterns = patterns; set = some set })
      else err (config (codes "building exclude patterns"))

  -- `Filter::new`
  unfoldable pub new : List Text → Result Filter
  unfolding add_patterns built
  new [] = ok allow_all
  new (p ∷ ps) = do set ← add_patterns [] (p ∷ ps); built (p ∷ ps) set

  unfoldable pub any_matches : List Text → FilePath → Bool
  any_matches [] path = false
  any_matches (g ∷ gs) path = globs.matches g path || any_matches gs path

  unfoldable pub set_excludes : Option (List Text) → FilePath → Bool
  unfolding any_matches
  set_excludes none path = false
  set_excludes (some set) path = any_matches set path

  unfoldable pub excludes : Filter → FilePath → Bool
  unfolding set_excludes
  excludes f path = set_excludes f.set path
