-- ===== src/Pmm/Bitmap.antt =====
-- The frame bitmap of kernel/src/pmm.c: one bit for each page frame, with the searches for a free
-- frame and for a run of free frames.
pub mod Laws
pub mod Count
pub mod Search
pub mod Region
use kfs.Base.{
  ℕ, zero, suc, ◌+◌, ◌*◌, ◌/◌, ◌%◌, ◌<◌, Bool, true, false, not, ◌&&◌, Option, none, some, List,
  ltb, leb, ◌==◌, if◌then◌else◌, get_or, set,
}
use kfs.Base.Bits.{test_bit, set_bit, clear_bit}

-- BITMAP_SIZE, MAX_FRAMES and MAX_MEMORY
abbrev pub bitmap_size : ℕ
bitmap_size = 4096

abbrev pub max_frames : ℕ
max_frames = 32768

abbrev pub max_memory : ℕ
max_memory = 134217728

unfoldable pub bitmap_set : List ℕ → ℕ → List ℕ
bitmap_set m frame = set m (frame / 8) (set_bit (get_or m (frame / 8) 0) (frame % 8))

unfoldable pub bitmap_clear : List ℕ → ℕ → List ℕ
bitmap_clear m frame = set m (frame / 8) (clear_bit (get_or m (frame / 8) 0) (frame % 8))

unfoldable pub bitmap_test : List ℕ → ℕ → Bool
bitmap_test m frame = test_bit (get_or m (frame / 8) 0) (frame % 8)

module _ (m : List ℕ) (total_frames : ℕ) where
  -- The inner loop of `bitmap_find_free`, from bit `j` of byte `i` on, with the rounds left.
  unfoldable pub find_bit : ℕ → ℕ → ℕ → Option ℕ
  find_bit zero i j = none
  find_bit (suc rounds) i j =
      let frame = i * 8 + j in
      let rest = find_bit rounds i (j + 1) in
      if ltb frame total_frames && not (bitmap_test m frame) then some frame else rest

  -- Its outer loop, from byte `i` on.
  unfoldable pub find_byte : ℕ → ℕ → Option ℕ
  find_byte zero i = none
  find_byte (suc rounds) i =
      let rest = find_byte rounds (i + 1) in
      if get_or m i 0 == 255
      then rest
      else elim (find_bit 8 i 0) [ some frame ↦ some frame | none ↦ rest ]

  -- `none` is the -1 of the source.
  unfoldable pub bitmap_find_free : Option ℕ
  bitmap_find_free = find_byte (total_frames / 8) 0

  -- The loop of `bitmap_find_free_region`, from `frame` on.
  unfoldable pub find_region : ℕ → ℕ → ℕ → ℕ → ℕ → Option ℕ
  find_region zero count frame consecutive start_frame = none
  find_region (suc rounds) count frame consecutive start_frame =
      let start = if consecutive == 0 then frame else start_frame in
      let found = find_region rounds count (frame + 1) (consecutive + 1) start in
      let blocked = find_region rounds count (frame + 1) 0 start_frame in
      if bitmap_test m frame
      then blocked
      else if leb count (consecutive + 1)
      then some start
      else found

  unfoldable pub bitmap_find_free_region : ℕ → Option ℕ
  bitmap_find_free_region count = find_region total_frames count 0 0 0
