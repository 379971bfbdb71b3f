-- ===== src/Pmm/Invariant.antt =====
-- The invariant of kernel/src/pmm.c: `used_frames` is the number of set bits of the bitmap. The
-- updates of one frame keep it.
use kfs.Base.{
  ℕ, ◌+◌, ◌/◌, ◌≤◌, ◌<◌, ◌≡◌, Bool, true, false, arith, ◌==◌, if◌then◌else◌, Bool-cases, inl, inr,
}
use kfs.Pmm.Bitmap.{bitmap_test, max_memory, max_frames}
use kfs.Pmm.Bitmap.Laws.{
  IsBitmap, bitmap_set-IsBitmap, bitmap_clear-IsBitmap, bitmap_test-bitmap_set,
  bitmap_test-bitmap_clear,
}
use kfs.Pmm.Bitmap.Count.{
  count_used, count_used-le, count_used-lt, count_used-bitmap_set, count_used-bitmap_clear,
}
use kfs.Pmm.{Pmm, use_frame, drop_frame, claim_frame, release_frame}

pub record IsValid (p : Pmm) : Type 0 where
  pub bitmap : IsBitmap p.frame_bitmap
  pub memory : p.total_memory ≤ max_memory
  pub frames : p.total_frames ≡ p.total_memory / 4096
  pub used : p.used_frames ≡ count_used p.frame_bitmap p.total_frames

-- Whether a frame is in use: what a client of the allocator can tell apart.
abbrev pub is_used : Pmm → ℕ → Bool
is_used p j = bitmap_test p.frame_bitmap j

module _ {p : Pmm} (v : IsValid p) (f : ℕ) (h : f < p.total_frames) where
  in_bitmap : f < max_frames
  in_bitmap = omega (arith, v.frames, v.memory)

  pub use_frame-IsValid : is_used p f ≡ false → IsValid (use_frame p f)
  unfolding use_frame
  use_frame-IsValid free = record {
    bitmap = bitmap_set-IsBitmap v.bitmap f;
    memory = v.memory;
    frames = v.frames;
    used = ground (
      arith,
      count_used-bitmap_set v.bitmap f in_bitmap p.total_frames,
      count_used-lt p.frame_bitmap p.total_frames f h free,
    );
  }

  pub is_used-use_frame :
      (j : ℕ) → is_used (use_frame p f) j ≡ (if f == j then true else is_used p j)
  unfolding use_frame
  is_used-use_frame j = bitmap_test-bitmap_set v.bitmap f j in_bitmap

  pub used_frames-use_frame : is_used p f ≡ false → (use_frame p f).used_frames ≡ p.used_frames + 1
  unfolding use_frame
  used_frames-use_frame free = omega (arith, count_used-lt p.frame_bitmap p.total_frames f h free)

  drop_frame-IsValid : is_used p f ≡ true → IsValid (drop_frame p f)
  unfolding drop_frame
  drop_frame-IsValid used = record {
    bitmap = bitmap_clear-IsBitmap v.bitmap f;
    memory = v.memory;
    frames = v.frames;
    used = ground (
      arith,
      count_used-bitmap_clear v.bitmap f in_bitmap p.total_frames,
      count_used-le p.frame_bitmap p.total_frames,
    );
  }

  pub claim_frame-IsValid : IsValid (claim_frame p f)
  unfolding claim_frame
  claim_frame-IsValid = elim (Bool-cases (is_used p f)) [
    | inl used ↦ rw used v
    | inr free ↦ rw free (use_frame-IsValid free)
  ]

  pub is_used-claim_frame :
      (j : ℕ) → is_used (claim_frame p f) j ≡ (if f == j then true else is_used p j)
  unfolding claim_frame use_frame
  is_used-claim_frame j = ground (arith, bitmap_test-bitmap_set v.bitmap f j in_bitmap)

  pub release_frame-IsValid : IsValid (release_frame p f)
  unfolding release_frame
  release_frame-IsValid = elim (Bool-cases (is_used p f)) [
    | inl used ↦ rw used (drop_frame-IsValid used)
    | inr free ↦ rw free v
  ]

  pub is_used-release_frame :
      (j : ℕ) → is_used (release_frame p f) j ≡ (if f == j then false else is_used p j)
  unfolding release_frame drop_frame
  is_used-release_frame j = ground (arith, bitmap_test-bitmap_clear v.bitmap f j in_bitmap)

pub total_frames-claim_frame : (p : Pmm) (f : ℕ) → (claim_frame p f).total_frames ≡ p.total_frames
unfolding claim_frame use_frame
total_frames-claim_frame p f = ground arith

pub total_frames-release_frame :
    (p : Pmm) (f : ℕ) → (release_frame p f).total_frames ≡ p.total_frames
unfolding release_frame drop_frame
total_frames-release_frame p f = ground arith

pub total_memory-claim_frame : (p : Pmm) (f : ℕ) → (claim_frame p f).total_memory ≡ p.total_memory
unfolding claim_frame use_frame
total_memory-claim_frame p f = ground arith

pub total_memory-release_frame :
    (p : Pmm) (f : ℕ) → (release_frame p f).total_memory ≡ p.total_memory
unfolding release_frame drop_frame
total_memory-release_frame p f = ground arith
