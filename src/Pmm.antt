-- ===== src/Pmm.antt =====
-- The physical memory manager, kernel/src/pmm.c. The static variables of the file are the fields
-- of a record, which each function takes and returns.
pub mod Bitmap
pub mod Init
pub mod Invariant
pub mod Alloc
pub mod Regions
mod Tests
use kfs.Base.{
  ℕ, zero, suc, ◌+◌, ◌*◌, ◌/◌, Bool, true, ◌&&◌, none, some, List, ltb, leb, ◌==◌, if◌then◌else◌,
  add32, sub32, mul32,
}
use Bitmap.{bitmap_set, bitmap_clear, bitmap_test, bitmap_find_free, bitmap_find_free_region}

pub record Pmm : Type 0 where
  pub frame_bitmap : List ℕ
  pub total_memory : ℕ
  pub total_frames : ℕ
  pub used_frames : ℕ

-- PAGE_ALIGN_DOWN, PAGE_ALIGN_UP, ADDR_TO_PFN and PFN_TO_ADDR
abbrev pub page_align_down : ℕ → ℕ
page_align_down addr = addr / 4096 * 4096

abbrev pub page_align_up : ℕ → ℕ
page_align_up addr = page_align_down (add32 addr 4095)

abbrev pub addr_to_pfn : ℕ → ℕ
addr_to_pfn addr = addr / 4096

abbrev pub pfn_to_addr : ℕ → ℕ
pfn_to_addr pfn = mul32 pfn 4096

-- The updates that the loops share: a clear bit is set and counted, a set one cleared.
unfoldable pub use_frame : Pmm → ℕ → Pmm
use_frame p frame = record p {
  frame_bitmap = bitmap_set p.frame_bitmap frame;
  used_frames = add32 p.used_frames 1;
}

unfoldable pub drop_frame : Pmm → ℕ → Pmm
drop_frame p frame = record p {
  frame_bitmap = bitmap_clear p.frame_bitmap frame;
  used_frames = sub32 p.used_frames 1;
}

unfoldable pub claim_frame : Pmm → ℕ → Pmm
claim_frame p frame = if bitmap_test p.frame_bitmap frame then p else use_frame p frame

unfoldable pub release_frame : Pmm → ℕ → Pmm
release_frame p frame = if bitmap_test p.frame_bitmap frame then drop_frame p frame else p

-- The address, 0 on failure, and the new state.
unfoldable pub pmm_alloc_frame : Pmm → ℕ × Pmm
pmm_alloc_frame p = elim (bitmap_find_free p.frame_bitmap p.total_frames) [
  | none ↦ (0, p)
  | some frame ↦ (pfn_to_addr frame, use_frame p frame)
]

unfoldable pub pmm_free_frame : Pmm → ℕ → Pmm
pmm_free_frame p addr =
    let frame = addr_to_pfn addr in if leb p.total_frames frame then p else release_frame p frame

-- `for (i = 0; i < count; i++) bitmap_set(start + i);`, with the rounds left.
unfoldable pub set_run : List ℕ → ℕ → ℕ → List ℕ
set_run m zero frame = m
set_run m (suc count) frame = set_run (bitmap_set m frame) count (add32 frame 1)

unfoldable pub pmm_alloc_frames : Pmm → ℕ → ℕ × Pmm
pmm_alloc_frames p count =
    if count == 0
    then (0, p)
    else elim (bitmap_find_free_region p.frame_bitmap p.total_frames count) [
      | none ↦ (0, p)
      | some start ↦ (
        pfn_to_addr start,
        record p {
          frame_bitmap = set_run p.frame_bitmap count start;
          used_frames = add32 p.used_frames count;
        },
      )
    ]

-- `frame` is `frame + i` of the source.
unfoldable pub free_run : Pmm → ℕ → ℕ → Pmm
free_run p zero frame = p
free_run p (suc count) frame =
    free_run (if ltb frame p.total_frames then release_frame p frame else p) count (add32 frame 1)

unfoldable pub pmm_free_frames : Pmm → ℕ → ℕ → Pmm
pmm_free_frames p addr count = free_run p count (addr_to_pfn addr)

unfoldable pub pmm_is_frame_allocated : Pmm → ℕ → Bool
pmm_is_frame_allocated p addr =
    let frame = addr_to_pfn addr in
    if leb p.total_frames frame then true else bitmap_test p.frame_bitmap frame

unfoldable pub pmm_mark_frame_used : Pmm → ℕ → Pmm
pmm_mark_frame_used p addr =
    let frame = addr_to_pfn addr in if ltb frame p.total_frames then claim_frame p frame else p

-- A loop `for (frame = start; frame < end_frame && frame < total_frames; frame++)` whose body is
-- `body`. It makes at most `total_frames` rounds, since `total_frames` does not change in it.
unfoldable pub for_frames : (Pmm → ℕ → Pmm) → ℕ → ℕ → Pmm → ℕ → Pmm
for_frames body zero end_frame p frame = p
for_frames body (suc rounds) end_frame p frame =
    let rest = for_frames body rounds end_frame (body p frame) (frame + 1) in
    if ltb frame end_frame && ltb frame p.total_frames then rest else p

unfoldable pub pmm_mark_region_used : Pmm → ℕ → ℕ → Pmm
pmm_mark_region_used p base length =
    for_frames claim_frame p.total_frames (addr_to_pfn (page_align_up (add32 base length))) p
      (addr_to_pfn base)

unfoldable pub pmm_mark_region_free : Pmm → ℕ → ℕ → Pmm
pmm_mark_region_free p base length =
    for_frames release_frame p.total_frames (addr_to_pfn (add32 base length)) p
      (addr_to_pfn (page_align_up base))

pub record PmmStats : Type 0 where
  pub total_frames : ℕ
  pub used_frames : ℕ
  pub free_frames : ℕ
  pub total_memory : ℕ
  pub free_memory : ℕ

unfoldable pub pmm_get_free_memory : Pmm → ℕ
pmm_get_free_memory p = mul32 (sub32 p.total_frames p.used_frames) 4096

unfoldable pub pmm_get_stats : Pmm → PmmStats
pmm_get_stats p = record {
  total_frames = p.total_frames;
  used_frames = p.used_frames;
  free_frames = sub32 p.total_frames p.used_frames;
  total_memory = p.total_memory;
  free_memory = mul32 (sub32 p.total_frames p.used_frames) 4096;
}

unfoldable pub pmm_get_total_memory : Pmm → ℕ
pmm_get_total_memory p = p.total_memory
