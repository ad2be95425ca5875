-- ===== src/Prelude/Int.antt =====
-- Signed integers over the native numbers. `negsuc n` is -(n + 1).
use treesync.Prelude.{ℕ, ◌≡◌, ap, Bool, true, false, ◌↔◌, Eq, ◌==◌, nat_eq, beq→eq, beq_refl}

pub data ℤ : Type 0 where
  pos : ℕ → ℤ
  negsuc : ℕ → ℤ

unfoldable pub int_beq : ℤ → ℤ → Bool
int_beq (pos a) (pos b) = a == b
int_beq (negsuc a) (negsuc b) = a == b
int_beq _ _ = false

int_beq_sound : (a b : ℤ) → int_beq a b ≡ true → a ≡ b
unfolding int_beq
int_beq_sound (pos a) (pos b) h = ap pos (beq→eq a b h)
int_beq_sound (negsuc a) (negsuc b) h = ap negsuc (beq→eq a b h)
int_beq_sound _ _ h = cc

int_beq_refl : (a : ℤ) → int_beq a a ≡ true
unfolding int_beq
int_beq_refl (pos a) = beq_refl a
int_beq_refl (negsuc a) = beq_refl a

pub int_beq_iff : (a b : ℤ) → (int_beq a b ≡ true) ↔ (a ≡ b)
int_beq_iff a b = (int_beq_sound a b, λ p. rw p (int_beq_refl b))

instance abbrev pub int_eq : Eq ℤ
int_eq = record { beq = int_beq; beq_iff = int_beq_iff }
