-- ===== src/Prelude/Int.antt =====
-- Signed integers over the native numbers, under the library's names (its ℤ stands on the unary ℕ).
use artdaq_core.Prelude.Words.{w64}
use Prim.Native.Nat.{ℕ, suc, ◌+◌, ◌-◌, ◌*◌, ◌%◌, ◌≤◌, ◌<◌}
use mathlib.Core.Path.{◌≡◌, refl}
use mathlib.Core.Logic.{◌↔◌, ◌≢◌, ◌⊎◌, inl, inr}
use mathlib.Core.Bool.{Bool, true, false}
use native.Mathlib.Omega.{arith}
use artdaq_core.Prelude.Tests.{ltb, leb, ◌==◌, if◌then◌else◌, Bool-cases}

-- `negsuc n` is -(n + 1).
pub data ℤ : Type 0 where
  pos : ℕ → ℤ
  negsuc : ℕ → ℤ

abbrev pub pos_part : ℤ → ℕ
pos_part (pos n) = n
pos_part (negsuc n) = 0

abbrev pub neg_part : ℤ → ℕ
neg_part (pos n) = 0
neg_part (negsuc n) = suc n

-- a - b, as an integer.
abbrev pub sub_ℕ : ℕ → ℕ → ℤ
sub_ℕ a b = if leb b a then pos (a - b) else negsuc (b - a - 1)

infixl 65 ◌+ℤ◌ ◌-ℤ◌
infixl 70 ◌*ℤ◌
infix 50 ◌≤ℤ◌
unfoldable pub ◌+ℤ◌ : ℤ → ℤ → ℤ
a +ℤ b = sub_ℕ (pos_part a + pos_part b) (neg_part a + neg_part b)

unfoldable pub ◌-ℤ◌ : ℤ → ℤ → ℤ
a -ℤ b = sub_ℕ (pos_part a + neg_part b) (neg_part a + pos_part b)

unfoldable pub ◌*ℤ◌ : ℤ → ℤ → ℤ
a *ℤ b =
    sub_ℕ (pos_part a * pos_part b + neg_part a * neg_part b)
      (pos_part a * neg_part b + neg_part a * pos_part b)

abbrev pub ◌≤ℤ◌ : ℤ → ℤ → Type 0
a ≤ℤ b = pos_part a + neg_part b ≤ pos_part b + neg_part a

abbrev pub ltb_ℤ : ℤ → ℤ → Bool
ltb_ℤ a b = ltb (pos_part a + neg_part b) (pos_part b + neg_part a)

abbrev pub leb_ℤ : ℤ → ℤ → Bool
leb_ℤ a b = leb (pos_part a + neg_part b) (pos_part b + neg_part a)

-- Shut, so that a split on a test does not split on its integers.
unfoldable pub eqb_ℤ : ℤ → ℤ → Bool
eqb_ℤ (pos a) (pos b) = a == b
eqb_ℤ (negsuc a) (negsuc b) = a == b
eqb_ℤ _ _ = false

pub eqb_ℤ_iff : (a b : ℤ) → (eqb_ℤ a b ≡ true) ↔ (a ≡ b)
unfolding eqb_ℤ
eqb_ℤ_iff (pos a) (pos b) = ground arith
eqb_ℤ_iff (pos a) (negsuc b) = ground arith
eqb_ℤ_iff (negsuc a) (pos b) = ground arith
eqb_ℤ_iff (negsuc a) (negsuc b) = ground arith

-- The conversion of an int to int16_t, as the compilers in use define it: modulo 2 ^ 16.
abbrev pub of_pattern16 : ℕ → ℤ
of_pattern16 w = if ltb w 32768 then pos w else negsuc (65535 - w)

unfoldable pub to_int16 : ℤ → ℤ
to_int16 (pos n) = of_pattern16 (n % 65536)
to_int16 (negsuc n) = of_pattern16 (65535 - n % 65536)

-- The conversion of an int to size_t, modulo 2 ^ 64.
unfoldable pub to_size : ℤ → ℕ
to_size (pos n) = n % w64
to_size (negsuc n) = w64 - 1 - n % w64

abbrev pub minus_one : ℤ
minus_one = negsuc 0

-- The managers' ids that an int16_t holds.
abbrev pub FitsInt16 : ℤ → Type 0
FitsInt16 z = (pos_part z < 32768) × (neg_part z ≤ 32768)

pub to_int16_fits : (z : ℤ) → FitsInt16 z → to_int16 z ≡ z
unfolding to_int16
to_int16_fits (pos n) h = ground arith
to_int16_fits (negsuc n) h = ground arith

pub eqb_refl : (a : ℤ) → eqb_ℤ a a ≡ true
eqb_refl a = (eqb_ℤ_iff a a).1 refl

pub eqb_false : (a b : ℤ) → a ≢ b → eqb_ℤ a b ≡ false
eqb_false a b h = ground (arith, eqb_ℤ_iff a b)

pub ℤ_cases : (a b : ℤ) → (a ≡ b) ⊎ (a ≢ b)
ℤ_cases a b = elim (Bool-cases (eqb_ℤ a b)) [
  | inl e ↦ inl ((eqb_ℤ_iff a b).0 e)
  | inr e ↦ inr (λ h. ground (arith, eqb_ℤ_iff a b))
]
