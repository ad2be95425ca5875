-- ===== src/FilePath.antt =====
-- `std::path`, as far as the program uses it: a path is the list of its components, which is what
-- its equality, hash, order, `starts_with` and `parent` look at. A name is its bytes.
-- The paths of the program are Unix paths, so `Component::Prefix` does not occur.
pub mod Order
pub mod Prefix
use treesync.Prelude.{
  ℕ, List, [], ◌∷◌, ◌++◌, Bool, true, false, ◌≡◌, ◌≢◌, refl, ap, Option, none, some, ◌&&◌, ◌↔◌,
  arith, length, All,
}
use treesync.Prelude.{
  Eq, ◌==◌, nat_eq, list_eq, list_beq, list_beq_iff, if◌then◌else◌, beq_refl, beq→eq,
}

abbrev pub Bytes : Type 0
Bytes = List ℕ

pub data Component : Type 0 where
  root_dir cur_dir parent_dir : Component
  normal : Bytes → Component

unfoldable pub component_beq : Component → Component → Bool
component_beq root_dir root_dir = true
component_beq cur_dir cur_dir = true
component_beq parent_dir parent_dir = true
component_beq (normal a) (normal b) = a == b
component_beq _ _ = false

component_beq_sound : (a b : Component) → component_beq a b ≡ true → a ≡ b
unfolding component_beq
component_beq_sound (normal a) (normal b) h = ap normal (beq→eq a b h)
component_beq_sound root_dir root_dir h = refl
component_beq_sound cur_dir cur_dir h = refl
component_beq_sound parent_dir parent_dir h = refl
component_beq_sound _ _ h = cc

component_beq_refl : (a : Component) → component_beq a a ≡ true
unfolding component_beq
component_beq_refl (normal a) = beq_refl a
component_beq_refl root_dir = refl
component_beq_refl cur_dir = refl
component_beq_refl parent_dir = refl

pub component_beq_iff : (a b : Component) → (component_beq a b ≡ true) ↔ (a ≡ b)
component_beq_iff a b = (component_beq_sound a b, λ p. rw p (component_beq_refl b))

instance abbrev pub component_eq : Eq Component
component_eq = record { beq = component_beq; beq_iff = component_beq_iff }

abbrev pub FilePath : Type 0
FilePath = List Component

-- Only the first component of a path is `/` or `.`: `Path::components` drops the others.
pub data IsInner : Component → Type 0 where
  up : IsInner parent_dir
  name : {n : Bytes} → IsInner (normal n)

abbrev pub IsWellFormed : FilePath → Type 0
IsWellFormed [] = Unit
IsWellFormed (c ∷ cs) = All IsInner cs

abbrev pub is_absolute : FilePath → Bool
is_absolute (root_dir ∷ cs) = true
is_absolute _ = false

-- `PathBuf::push` of one component: `/` replaces the path, and `.` is dropped inside a path.
unfoldable pub push : FilePath → Component → FilePath
push p root_dir = root_dir ∷ []
push [] cur_dir = cur_dir ∷ []
push (c ∷ cs) cur_dir = c ∷ cs
push p c = p ++ (c ∷ [])

-- `Path::join`: an absolute path replaces the base.
unfoldable pub push_all : FilePath → List Component → FilePath
push_all p [] = p
push_all p (c ∷ cs) = push_all (push p c) cs

abbrev pub join : FilePath → FilePath → FilePath
join base relative = push_all base relative

-- `Path::starts_with`: whole components, the path itself included.
unfoldable pub starts_with : FilePath → FilePath → Bool
starts_with p [] = true
starts_with [] (d ∷ ds) = false
starts_with (c ∷ cs) (d ∷ ds) = (c == d) && starts_with cs ds

-- `Path::parent`: none for the empty path and for one that ends in `/`.
unfoldable pub parent : FilePath → Option FilePath
parent [] = none
parent (root_dir ∷ []) = none
parent (c ∷ []) = some []
parent (c ∷ d ∷ cs) = elim (parent (d ∷ cs)) [ none ↦ none | some p ↦ some (c ∷ p) ]

-- `Path::strip_prefix`
unfoldable pub strip_prefix : FilePath → FilePath → Option FilePath
strip_prefix p [] = some p
strip_prefix [] (d ∷ ds) = none
strip_prefix (c ∷ cs) (d ∷ ds) = let rest = strip_prefix cs ds in if c == d then rest else none
