-- ===== src/Pmm/Tests.antt =====
-- Tests of the physical memory manager, and its theorems at concrete states.
use kfs.Base.{ℕ, ◌-◌, ◌*◌, ◌/◌, ◌<◌, ◌≡◌, refl, true, some, arith, if◌then◌else◌, ◌==◌, ◌⊎◌}
use kfs.Base.Bits.{test_bit, clear_bit}
use kfs.Pmm.Bitmap.{
  bitmap_test, bitmap_clear, bitmap_find_free, find_byte, find_bit, find_region,
  bitmap_find_free_region,
}
use kfs.Pmm.Bitmap.Laws.{bitmap_test-full}
use kfs.Pmm.Bitmap.Search.{AllUsed}
use kfs.Pmm.Bitmap.Region.{NoRunTo}
use kfs.Pmm.Invariant.{IsValid, is_used}
use kfs.Pmm.Alloc.{
  pmm_alloc_frame_lem, pmm_free_frame-pmm_alloc_frame, pmm_alloc_frames_lem, pmm_alloc_frame_tail,
  Allocated, AllocatedRun,
}
use kfs.Pmm.Init.{all_used, detect_memory, pmm_init, MmapEntry, MultibootInfo}
use kfs.Pmm.Init.Boot.{all_used-IsValid, pmm_init_lem, reserved}
use kfs.Pmm.Regions.{mark_region-IsValid, pmm_mark_region_free_lem}
use kfs.Pmm.{
  Pmm, pmm_alloc_frame, pmm_free_frame, pmm_alloc_frames, pmm_mark_region_free, for_frames,
  release_frame, drop_frame,
}

-- Seventeen frames, of which the frames 1 to 14 and 16 are free.
small_memory : Pmm
small_memory =
    pmm_mark_region_free (pmm_mark_region_free (all_used 69632) 0x1000 0xE000) 0x10000 0x1000

small_memory-IsValid : IsValid small_memory
unfolding small_memory
small_memory-IsValid =
    (mark_region-IsValid 0x10000 0x1000
      (mark_region-IsValid 0x1000 0xE000 (all_used-IsValid 69632 (omega arith))).1).1

alloc_runs : (pmm_alloc_frame small_memory).0 ≡ 4096
unfolding small_memory pmm_alloc_frame pmm_mark_region_free for_frames release_frame drop_frame
    all_used bitmap_test bitmap_clear bitmap_find_free find_byte find_bit test_bit clear_bit
alloc_runs = refl

frames_run :
    ((pmm_alloc_frames small_memory 10).0 ≡ 4096) × ((pmm_alloc_frames small_memory 15).0 ≡ 0)
unfolding small_memory pmm_alloc_frames pmm_mark_region_free for_frames release_frame drop_frame
    all_used bitmap_test bitmap_clear bitmap_find_free_region find_region test_bit clear_bit
frames_run = (refl, refl)

detect_memory_runs :
    detect_memory (record { flags = 1; mem_upper = 4194304 - 1024; mmap_addr = 0; mmap_length = 0 })
    ≡ 0
unfolding detect_memory test_bit
detect_memory_runs = refl

pmm_alloc_frame_lem_example :
    ((pmm_alloc_frame small_memory ≡ (0, small_memory))
      × AllUsed small_memory.frame_bitmap 0 (small_memory.total_frames / 8 * 8))
    ⊎ Allocated small_memory (pmm_alloc_frame small_memory).0 (pmm_alloc_frame small_memory).1
pmm_alloc_frame_lem_example = pmm_alloc_frame_lem small_memory-IsValid

pmm_free_frame-pmm_alloc_frame_example :
    pmm_free_frame (pmm_alloc_frame small_memory).1 (pmm_alloc_frame small_memory).0 ≡ small_memory
pmm_free_frame-pmm_alloc_frame_example =
    pmm_free_frame-pmm_alloc_frame small_memory-IsValid (rw alloc_runs (omega arith))

-- Sixteen frames in use, and a seventeenth that is free.
tail_free : Pmm
tail_free = pmm_mark_region_free (all_used 69632) 0x10000 0x1000

all_used-IsValid_17 : IsValid (all_used 69632)
all_used-IsValid_17 = all_used-IsValid 69632 (omega arith)

tail_free-used : AllUsed tail_free.frame_bitmap 0 (tail_free.total_frames / 8 * 8)
unfolding tail_free all_used
tail_free-used g p q =
    let small : g < 16 =
      omega (arith, (mark_region-IsValid 0x10000 0x1000 all_used-IsValid_17).3) in
    ground (
      arith,
      pmm_mark_region_free_lem 0x10000 0x1000 all_used-IsValid_17 (omega arith) (omega arith) g
          (omega arith),
      bitmap_test-full g (omega arith),
    )

pmm_alloc_frame_tail_example : pmm_alloc_frame tail_free ≡ (0, tail_free)
pmm_alloc_frame_tail_example = pmm_alloc_frame_tail {p = tail_free} tail_free-used

pmm_alloc_frames_lem_example :
    ((pmm_alloc_frames small_memory 10 ≡ (0, small_memory))
      × ((◌≡◌ {A = ℕ} 10 0) ⊎ NoRunTo small_memory.frame_bitmap 10 small_memory.total_frames))
    ⊎ AllocatedRun small_memory 10
        (pmm_alloc_frames small_memory 10).0
        (pmm_alloc_frames small_memory 10).1
pmm_alloc_frames_lem_example = pmm_alloc_frames_lem 10 small_memory-IsValid

frames_17 : (all_used 69632).total_frames ≡ 17
unfolding all_used
frames_17 = refl

-- A map of two entries, the first of 32 MB from 1 MB on, and a kernel of 64 KB at 1 MB.
abbrev two_entries : ℕ → MmapEntry
two_entries a = record {
  size = 20;
  addr_low = 0x100000;
  len_low = 0x2000000;
  kind = if a == 0x9000 then 1 else 2;
}

abbrev boot_info : MultibootInfo
boot_info = record { flags = 65; mem_upper = 32768; mmap_addr = 0x9000; mmap_length = 48 }

pmm_init_lem_example :
    (q : Pmm) × (pmm_init two_entries 0x100000 0x110000 boot_info ≡ some q)
    × IsValid q
    × ((j : ℕ) → j < q.total_frames → reserved 0x100000 0x110000 j ≡ true → is_used q j ≡ true)
pmm_init_lem_example =
    pmm_init_lem 0x100000 0x110000 (omega arith) (omega arith) two_entries boot_info (omega arith)
      (λ a h. omega arith)
