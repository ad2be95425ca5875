-- ===== src/Error.antt =====
-- crates/treesync/src/error.rs: the categories of failure, and `Result`. A text is its code points.
-- The messages are shortened: what callers branch on is the category.
use treesync.Prelude.{ℕ, List, [], ◌∷◌, Bool, true, false, ◌≡◌, refl, ◌⊎◌, inl, inr}
use Prim.Native.String.{String}
use Prim.Native.Char.{code}

abbrev pub Text : Type 0
Text = List ℕ

abbrev pub codes : String → Text
codes String.[] = []
codes (String.◌∷◌ c s) = code c ∷ codes s

pub data Error : Type 0 where
  not_found permission_denied already_exists invalid_path config io unsupported internal :
      Text → Error

pub data Result {ℓ} (A : Type ℓ) : Type ℓ where
  err : (error : Error) → Result A
  ok : (value : A) → Result A

-- `map_err`
abbrev pub map_err {ℓ} : {A : Type ℓ} → (Error → Error) → Result A → Result A
map_err f (ok a) = ok a
map_err f (err e) = err (f e)

-- The operator `?`, and the rest of the function.
infixl 5 ◌>>=◌
abbrev pub ◌>>=◌ {ℓ κ} : {A : Type ℓ} {B : Type κ} → Result A → (A → Result B) → Result B
err failure >>= next = err failure
ok value >>= next = next value

-- `if !test { return Err(e) }`
abbrev pub require : Bool → Error → Result (Unit {0})
require false e = err e
require true e = ok tt

infixl 5 ◌>>◌
abbrev pub ◌>>◌ {ℓ} : {B : Type ℓ} → Result (Unit {0}) → Result B → Result B
checked >> next = checked >>= λ done. next

-- `io::ErrorKind`, as far as the program tells the kinds apart.
pub data IoKind : Type 0 where
  io_not_found io_permission_denied io_already_exists io_unexpected_eof io_other : IoKind

-- `From<io::Error>`
unfoldable pub from_io : IoKind → Text → Error
from_io io_not_found m = not_found m
from_io io_permission_denied m = permission_denied m
from_io io_already_exists m = already_exists m
from_io io_unexpected_eof m = io m
from_io io_other m = io m

pub Result-cases {ℓ} :
    {A : Type ℓ} (r : Result A) → ((a : A) × (r ≡ ok a)) ⊎ ((e : Error) × (r ≡ err e))
Result-cases (ok a) = inl (a, refl)
Result-cases (err e) = inr (e, refl)

pub ok-injective {ℓ} : {A : Type ℓ} {a b : A} → ok a ≡ ok b → a ≡ b
ok-injective e = cc

abbrev pub is_ok {ℓ} : {A : Type ℓ} → Result A → Bool
is_ok (ok a) = true
is_ok (err e) = false
