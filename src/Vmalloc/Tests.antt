-- ===== src/Vmalloc/Tests.antt =====
-- The theorems of the virtual allocator at a list of two regions.
use kfs.Base.{
  ℕ, ◌+◌, ◌*◌, ◌≤◌, ◌<◌, ◌≡◌, ◌≢◌, ◌⊎◌, inl, inr, refl, Bool, true, false, Option, none, some, List,
  [], ◌∷◌, ◌++◌, arith, All, ◌==◌, if◌then◌else◌, length,
}
use kfs.Pmm.{Pmm, pmm_free_frame, pmm_alloc_frame}
use kfs.Pmm.Init.{all_used}
use kfs.Paging.{Paging, paging_map_page, paging_get_physical}
use kfs.Kmalloc.{Heap, block_magic, kmalloc, kfree, kbrk, find_free_block, append_block}
use kfs.Ring.{Linked, Distinct}
use kfs.Vmalloc.{
  Vmalloc, vm_magic, vmalloc_end, is_region, vmalloc_find_region, find_region, map_frames, pages_of,
  vbrk, vfree, vmalloc_highest_end, highest_from,
}
use kfs.Vmalloc.Chain.{highest_of}
use kfs.Vmalloc.Free.{IsRegions, Freed, vfree_lem}
use kfs.Vmalloc.Extend.{Moved, vbrk_lem}
use kfs.Vmalloc.Outcome.{Placed, GivenBack, vmalloc_lem}

-- The payloads of the heap's two blocks, 0x2018 and 0x2048, are the descriptors.
abbrev two_descriptors : Heap
two_descriptors = record {
  heap_start = 0x2000;
  heap_end = 0x2060;
  heap_max = 0x4000;
  block_list = 0x2000;
  headers = λ a.
      if a == 0x2000
      then record { size = 24; free = false; next = 0x2030; prev = 0; magic = block_magic }
      else record { size = 24; free = false; next = 0; prev = 0x2000; magic = block_magic };
  total_allocations = 2;
  total_frees = 0;
}

-- One free frame, and a table at 0x3000 for the addresses from 16 MB on.
abbrev one_frame : Paging
one_frame = record {
  pmm = pmm_free_frame (all_used 69632) 0x5000;
  memory = λ a. if a == 0x1010 then 0x3003 else 0;
  current_directory = 0x1000;
  kernel_directory = 0x1000;
}

abbrev two_regions : Vmalloc
two_regions = record {
  vmalloc_current = 0x100_2000;
  region_list = 0x2048;
  regions = λ a.
      if a == 0x2018
      then record {
        virt_addr = 0x100_0000;
        size = 100;
        mapped_size = 4096;
        num_pages = 1;
        next = 0;
        magic = vm_magic;
      }
      else record {
        virt_addr = 0x100_1000;
        size = 200;
        mapped_size = 4096;
        num_pages = 1;
        next = 0x2018;
        magic = vm_magic;
      };
  total_regions = 2;
  total_pages_allocated = 2;
  heap = two_descriptors;
  paging = one_frame;
}

abbrev descriptors : List ℕ
descriptors = 0x2048 ∷ 0x2018 ∷ []

two_regions-IsRegions : IsRegions two_regions descriptors
unfolding Linked Distinct highest_of
two_regions-IsRegions = record {
  links = (refl, omega arith, (refl, omega arith, refl));
  different = ((omega arith, tt), (tt, tt));
  count = refl;
  few = omega arith;
  low = omega arith;
  high = omega arith;
}

-- A break that is moved down by 0x7FFF_FFFF wraps, and ends above the end of the space.
brk_underflow :
    vbrk 3 two_regions 0x8000_0001
    ≡ some (0x100_2000, record two_regions { vmalloc_current = 0x8100_2001 })
unfolding vbrk vmalloc_highest_end highest_from
brk_underflow = refl

-- A size of almost 4 GB is rounded to no page at all.
size_wraps : pages_of 0xFFFF_F001 ≡ 0
size_wraps = refl

vbrk_lem_example :
    ((vbrk 3 two_regions 0xFFFF_F000 ≡ none)
      × (0xFFFF_F000 < 0x8000_0000)
      × (vmalloc_end < 0x100_2000 + 0xFFFF_F000))
    ⊎ Moved 3 two_regions descriptors 0xFFFF_F000
vbrk_lem_example =
    vbrk_lem 3 two_regions descriptors 0xFFFF_F000 (omega arith) two_regions-IsRegions (omega arith)
      (inr (omega arith))

abbrev heap_of : Option Heap → Heap
heap_of none = two_descriptors
heap_of (some heap) = heap

vfree_lem_example :
    ((vfree 3 two_regions 0x100_0000 ≡ none)
      × All (λ x. is_region (two_regions.regions x) 0x100_0000 ≡ false) descriptors)
    ⊎ Freed 3 two_regions descriptors 0x100_0000
unfolding vmalloc_find_region find_region kfree
vfree_lem_example =
    vfree_lem 3 two_regions descriptors 0x100_0000 (heap_of (kfree two_descriptors 0x2018))
      (omega arith) two_regions-IsRegions (omega arith) refl

abbrev grown_heap : Option (ℕ × Heap) → Heap
grown_heap none = two_descriptors
grown_heap (some (region, heap)) = heap

abbrev paging_of : Option (Bool × Paging) → Paging
paging_of none = one_frame
paging_of (some (done, paging)) = paging

vmalloc_lem_example :
    ((true ≡ true) × Placed 3 two_regions descriptors 100 0x2078)
    ⊎ ((true ≡ false) × GivenBack 3 two_regions descriptors 100)
unfolding kmalloc kfree map_frames find_free_block kbrk append_block pmm_alloc_frame
    kfs.Kmalloc.find_last kfs.Pmm.Bitmap.bitmap_find_free kfs.Pmm.Bitmap.find_byte pmm_free_frame
    all_used kfs.Pmm.release_frame kfs.Pmm.Bitmap.bitmap_test kfs.Base.Bits.test_bit
    kfs.Pmm.drop_frame kfs.Pmm.Bitmap.bitmap_clear kfs.Base.Bits.clear_bit kfs.Pmm.Bitmap.find_bit
    paging_map_page kfs.Paging.paging_map_page_in_directory
vmalloc_lem_example =
    vmalloc_lem 3 two_regions descriptors 100 0x2078 (grown_heap (kmalloc 3 two_descriptors 24))
      (heap_of (kfree (grown_heap (kmalloc 3 two_descriptors 24)) 0x2078)) true
      (paging_of (map_frames 1 one_frame 0x100_2000 0)) two_regions-IsRegions (omega arith)
      (omega arith) (omega arith) refl (omega arith) (omega arith, (omega arith, tt)) refl refl
