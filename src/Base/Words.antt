-- ===== src/Base/Words.antt =====
-- Unsigned machine words of 32 and 8 bits as native numbers, with the wrap-around written out.
use Prim.Native.Nat.{ℕ, ◌+◌, ◌-◌, ◌*◌, ◌%◌}

-- The values of `uint32_t` are those below this number.
abbrev pub word_mod : ℕ
word_mod = 4294967296

-- `uint32_t` addition, subtraction and multiplication.
abbrev pub add32 : ℕ → ℕ → ℕ
add32 a b = (a + b) % 4294967296

abbrev pub sub32 : ℕ → ℕ → ℕ
sub32 a b = (a + 4294967296 - b) % 4294967296

abbrev pub mul32 : ℕ → ℕ → ℕ
mul32 a b = (a * b) % 4294967296

-- `~a` of a `uint32_t`.
abbrev pub not32 : ℕ → ℕ
not32 a = 4294967295 - a

-- The cast to `uint8_t`.
abbrev pub u8 : ℕ → ℕ
u8 a = a % 256
