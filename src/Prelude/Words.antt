-- ===== src/Prelude/Words.antt =====
-- Unsigned machine words: numbers below 2 ^ 32 and 2 ^ 64, with their wrap-around written out.
use Prim.Native.Nat.{ℕ, ◌+◌, ◌-◌, ◌*◌, ◌%◌, ◌^◌}

abbrev pub w32 : ℕ
w32 = 2 ^ 32

abbrev pub w64 : ℕ
w64 = 2 ^ 64

-- unsigned a + b, and size_t a + b, a - b and a * b.
abbrev pub add32 : ℕ → ℕ → ℕ
add32 a b = (a + b) % w32

abbrev pub add64 : ℕ → ℕ → ℕ
add64 a b = (a + b) % w64

abbrev pub sub64 : ℕ → ℕ → ℕ
sub64 a b = (a + w64 - b) % w64

abbrev pub mul64 : ℕ → ℕ → ℕ
mul64 a b = a * b % w64
