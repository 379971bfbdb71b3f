-- ===== src/Base/Bits.antt =====
-- One bit of a byte: what setting and clearing it does to it and to the other bits. There are
-- finitely many cases, which a table checks.
use kfs.Base.{
  ℕ, zero, suc, ◌^◌, ◌<◌, bit_and, bit_or, Bool, true, false, not, ◌||◌, ◌≡◌, refl, arith, ◌==◌,
  if◌then◌else◌, u8, not32,
}

-- `1 << j`
abbrev pub bit : ℕ → ℕ
bit j = 2 ^ j

-- `(b & (1 << j)) != 0`
unfoldable pub test_bit : ℕ → ℕ → Bool
test_bit b j = not (bit_and b (bit j) == 0)

-- `b |= 1 << j`, on a `uint8_t`
unfoldable pub set_bit : ℕ → ℕ → ℕ
set_bit b j = u8 (bit_or b (bit j))

-- `b &= ~(1 << j)`, on a `uint8_t`
unfoldable pub clear_bit : ℕ → ℕ → ℕ
clear_bit b j = u8 (bit_and b (not32 (bit j)))

-- A test that every number below a limit passes.
every_under : (ℕ → Bool) → ℕ → Bool
every_under test zero = true
every_under test (suc n) = if test n then every_under test n else false

passes_under :
    (test : ℕ → Bool) (limit i : ℕ) → i < limit → every_under test limit ≡ true → test i ≡ true
unfolding every_under
passes_under test zero i below e = absurd (omega arith)
passes_under test (suc n) i below e = ground (arith, passes_under test n i)

abbrev same : Bool → Bool → Bool
same true b = b
same false b = not b

same_eq : (a b : Bool) → same a b ≡ true → a ≡ b
same_eq a b h = ground arith

-- A fact about a byte and two bit positions, checked at all of them.
module _ (row : ℕ → ℕ → ℕ → Bool) where
  abbrev every_second : ℕ → ℕ → Bool
  every_second b i = every_under (row b i) 8

  abbrev every_first : ℕ → Bool
  every_first b = every_under (every_second b) 8

  every_byte : Bool
  unfolding every_under
  every_byte = every_under every_first 256

table_sound :
    (row : ℕ → ℕ → ℕ → Bool)
    → every_byte row ≡ true
    → (b i j : ℕ) → b < 256
    → i < 8
    → j < 8
    → row b i j ≡ true
unfolding every_byte
table_sound row t b i j hb hi hj =
    passes_under (row b i) 8 j hj
      (passes_under (every_second row b) 8 i hi (passes_under (every_first row) 256 b hb t))

abbrev set_row : ℕ → ℕ → ℕ → Bool
set_row b i j = same (test_bit (set_bit b i) j) (if i == j then true else test_bit b j)

set_table : every_byte set_row ≡ true
unfolding every_byte test_bit set_bit
set_table = refl

abbrev clear_row : ℕ → ℕ → ℕ → Bool
clear_row b i j = same (test_bit (clear_bit b i) j) (if i == j then false else test_bit b j)

clear_table : every_byte clear_row ≡ true
unfolding every_byte test_bit clear_bit
clear_table = refl

abbrev undo_row : ℕ → ℕ → ℕ → Bool
undo_row b i j = test_bit b i || clear_bit (set_bit b i) i == b

undo_table : every_byte undo_row ≡ true
unfolding every_byte test_bit set_bit clear_bit
undo_table = refl

pub test_bit-set_bit :
    (b i j : ℕ)
    → b < 256
    → i < 8
    → j < 8
    → test_bit (set_bit b i) j ≡ (if i == j then true else test_bit b j)
test_bit-set_bit b i j hb hi hj = same_eq _ _ (table_sound set_row set_table b i j hb hi hj)

pub test_bit-clear_bit :
    (b i j : ℕ)
    → b < 256
    → i < 8
    → j < 8
    → test_bit (clear_bit b i) j ≡ (if i == j then false else test_bit b j)
test_bit-clear_bit b i j hb hi hj = same_eq _ _ (table_sound clear_row clear_table b i j hb hi hj)

pub clear_bit-set_bit :
    (b i : ℕ) → b < 256 → i < 8 → test_bit b i ≡ false → clear_bit (set_bit b i) i ≡ b
clear_bit-set_bit b i hb hi h = ground (arith, table_sound undo_row undo_table b i i hb hi hi)

-- Every bit of 0xFF is set; a byte other than 0xFF has a clear bit.
abbrev full_row : ℕ → ℕ → ℕ → Bool
full_row b i j = test_bit 255 i

full_table : every_byte full_row ≡ true
unfolding every_byte test_bit
full_table = refl

pub test_bit-full : (i : ℕ) → i < 8 → test_bit 255 i ≡ true
test_bit-full i hi = table_sound full_row full_table 0 i i (omega arith) hi hi

pub set_bit-lt : (b i : ℕ) → set_bit b i < 256
unfolding set_bit
set_bit-lt b i = omega arith

pub clear_bit-lt : (b i : ℕ) → clear_bit b i < 256
unfolding clear_bit
clear_bit-lt b i = omega arith
