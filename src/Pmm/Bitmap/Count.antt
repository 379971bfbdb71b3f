-- ===== src/Pmm/Bitmap/Count.antt =====
-- The number of frames that the bitmap marks as used, which `used_frames` is to equal.
use kfs.Base.{
  ℕ, zero, suc, ◌+◌, ◌≤◌, ◌<◌, ◌≡◌, refl, Bool, true, false, not, ◌&&◌, List, arith, ltb, replicate,
}
use kfs.Pmm.Bitmap.{bitmap_set, bitmap_clear, bitmap_test, bitmap_size, max_frames}
use kfs.Pmm.Bitmap.Laws.{
  IsBitmap, bitmap_test-bitmap_set, bitmap_test-bitmap_clear, bitmap_test-full,
}

abbrev pub one_if : Bool → ℕ
one_if true = 1
one_if false = 0

-- The used frames among the first `n`.
unfoldable pub count_used : List ℕ → ℕ → ℕ
count_used m zero = 0
count_used m (suc n) = one_if (bitmap_test m n) + count_used m n

pub count_used-le : (m : List ℕ) (n : ℕ) → count_used m n ≤ n
unfolding count_used
count_used-le m zero = omega arith
count_used-le m (suc n) = ground (arith, count_used-le m n)

pub count_used-full : (n : ℕ) → n ≤ max_frames → count_used (replicate bitmap_size 255) n ≡ n
unfolding count_used
count_used-full zero h = refl
count_used-full (suc n) h =
    rw (bitmap_test-full n h) (omega (arith, count_used-full n (omega arith)))

-- A free frame leaves room in the count.
pub count_used-lt : (m : List ℕ) (n i : ℕ) → i < n → bitmap_test m i ≡ false → count_used m n < n
unfolding count_used
count_used-lt m zero i h free = absurd (omega arith)
count_used-lt m (suc n) i h free = ground (arith, count_used-lt m n i, count_used-le m n)

-- A used frame is counted.
pub count_used-pos : (m : List ℕ) (n i : ℕ) → i < n → bitmap_test m i ≡ true → 0 < count_used m n
unfolding count_used
count_used-pos m zero i h used = absurd (omega arith)
count_used-pos m (suc n) i h used = ground (arith, count_used-pos m n i)

module _ {m : List ℕ} (v : IsBitmap m) (i : ℕ) (h : i < max_frames) where
  pub count_used-bitmap_set :
      (n : ℕ)
      → count_used (bitmap_set m i) n ≡ count_used m n + one_if (ltb i n && not (bitmap_test m i))
  unfolding count_used
  count_used-bitmap_set zero = ground arith
  count_used-bitmap_set (suc n) =
      ground (arith, bitmap_test-bitmap_set v i n h, count_used-bitmap_set n)

  pub count_used-bitmap_clear :
      (n : ℕ)
      → count_used (bitmap_clear m i) n + one_if (ltb i n && bitmap_test m i) ≡ count_used m n
  unfolding count_used
  count_used-bitmap_clear zero = ground arith
  count_used-bitmap_clear (suc n) =
      ground (arith, bitmap_test-bitmap_clear v i n h, count_used-bitmap_clear n)
