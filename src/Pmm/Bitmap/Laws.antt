-- ===== src/Pmm/Bitmap/Laws.antt =====
-- What one write to the frame bitmap does to each frame's bit.
use kfs.Base.{
  ℕ, ◌/◌, ◌%◌, ◌<◌, ◌≡◌, ◌∙◌, true, false, List, arith, ◌==◌, if◌then◌else◌, length, get_or,
  replicate, length-set, length-replicate, get_or-set_self, get_or-set_ne, set-set, set-get_or,
  get_or-replicate, All, All-set, All-get_or, All-replicate,
}
use kfs.Base.Bits.{
  set_bit, clear_bit, test_bit-set_bit, test_bit-clear_bit, clear_bit-set_bit, set_bit-lt,
  clear_bit-lt, test_bit-full,
}
use kfs.Pmm.Bitmap.{bitmap_set, bitmap_clear, bitmap_test, bitmap_size, max_frames}
use native.Mathlib.Decide.{ℕ_discrete}

-- The array `frame_bitmap`: BITMAP_SIZE bytes.
pub record IsBitmap (m : List ℕ) : Type 0 where
  pub size : length m ≡ bitmap_size
  pub bytes : All (λ b. b < 256) m

module _ {m : List ℕ} (v : IsBitmap m) where
  byte-lt : (i : ℕ) → get_or m i 0 < 256
  byte-lt i = All-get_or (λ b. b < 256) m i 0 v.bytes (omega arith)

  pub bitmap_set-IsBitmap : (i : ℕ) → IsBitmap (bitmap_set m i)
  unfolding bitmap_set
  bitmap_set-IsBitmap i = record {
    size = length-set m (i / 8) _ ∙ v.size;
    bytes = All-set (λ b. b < 256) m (i / 8) _ v.bytes (set_bit-lt _ _);
  }

  pub bitmap_clear-IsBitmap : (i : ℕ) → IsBitmap (bitmap_clear m i)
  unfolding bitmap_clear
  bitmap_clear-IsBitmap i = record {
    size = length-set m (i / 8) _ ∙ v.size;
    bytes = All-set (λ b. b < 256) m (i / 8) _ v.bytes (clear_bit-lt _ _);
  }

  pub bitmap_test-bitmap_set :
      (i j : ℕ)
      → i < max_frames
      → bitmap_test (bitmap_set m i) j ≡ (if i == j then true else bitmap_test m j)
  unfolding bitmap_test bitmap_set
  bitmap_test-bitmap_set i j h = elim (ℕ_discrete (i / 8) (j / 8)) [
    | yes e ↦
        rw
          (
            ← e,
            get_or-set_self m (i / 8) (set_bit (get_or m (i / 8) 0) (i % 8)) 0
                (omega (arith, v.size)),
          )
          (ground (
            arith,
            test_bit-set_bit (get_or m (i / 8) 0) (i % 8) (j % 8) (byte-lt (i / 8)) (omega arith)
                (omega arith),
          ))
    | no e ↦
        ground (arith, get_or-set_ne m (i / 8) (j / 8) (set_bit (get_or m (i / 8) 0) (i % 8)) 0 e)
  ]

  pub bitmap_test-bitmap_clear :
      (i j : ℕ)
      → i < max_frames
      → bitmap_test (bitmap_clear m i) j ≡ (if i == j then false else bitmap_test m j)
  unfolding bitmap_test bitmap_clear
  bitmap_test-bitmap_clear i j h = elim (ℕ_discrete (i / 8) (j / 8)) [
    | yes e ↦
        rw
          (
            ← e,
            get_or-set_self m (i / 8) (clear_bit (get_or m (i / 8) 0) (i % 8)) 0
                (omega (arith, v.size)),
          )
          (ground (
            arith,
            test_bit-clear_bit (get_or m (i / 8) 0) (i % 8) (j % 8) (byte-lt (i / 8)) (omega arith)
                (omega arith),
          ))
    | no e ↦
        ground (arith, get_or-set_ne m (i / 8) (j / 8) (clear_bit (get_or m (i / 8) 0) (i % 8)) 0 e)
  ]

  -- Clearing a bit that was just set gives the bitmap back.
  pub bitmap_clear-bitmap_set :
      (i : ℕ) → i < max_frames → bitmap_test m i ≡ false → bitmap_clear (bitmap_set m i) i ≡ m
  unfolding bitmap_test bitmap_set bitmap_clear
  bitmap_clear-bitmap_set i h free =
      rw
        (
          get_or-set_self m (i / 8) (set_bit (get_or m (i / 8) 0) (i % 8)) 0
              (omega (arith, v.size)),
          set-set,
          clear_bit-set_bit (get_or m (i / 8) 0) (i % 8) (byte-lt (i / 8)) (omega arith) free,
        )
        (set-get_or m (i / 8) 0)

pub full-IsBitmap : IsBitmap (replicate bitmap_size 255)
full-IsBitmap = record {
  size = length-replicate {A = ℕ} bitmap_size 255;
  bytes = All-replicate (λ b. b < 256) bitmap_size 255 (omega arith);
}

pub bitmap_test-full : (j : ℕ) → j < max_frames → bitmap_test (replicate bitmap_size 255) j ≡ true
unfolding bitmap_test
bitmap_test-full j h =
    rw (get_or-replicate {A = ℕ} bitmap_size (j / 8) 255 0 (omega arith))
      (test_bit-full (j % 8) (omega arith))
