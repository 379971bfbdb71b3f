-- ===== src/Vmalloc.antt =====
-- The virtual allocator, kernel/src/vmalloc.c. The descriptors of the regions lie in a store, a
-- descriptor to an address that kmalloc gave; a pointer is its address, 0 for NULL. The walks along
-- the regions take fuel, as those of the heap do.
pub mod Chain
pub mod Cut
pub mod Free
pub mod Extend
pub mod Place
pub mod Outcome
mod Tests
use kfs.Base.{
  ℕ, zero, suc, ◌+◌, ◌*◌, ◌/◌, ◌%◌, Bool, true, false, ◌&&◌, Option, none, some, ltb, leb, ◌==◌,
  if◌then◌else◌, add32, mul32, sub32,
}
use kfs.Pmm.{Pmm, pmm_alloc_frame, pmm_free_frame}
use kfs.Paging.{Paging, clear_page, paging_map_page, paging_unmap_page, paging_get_physical}
use kfs.Kmalloc.{Heap, kmalloc, kfree}

-- `vm_region_t`
pub record VmRegion : Type 0 where
  pub virt_addr : ℕ
  pub size : ℕ
  pub mapped_size : ℕ
  pub num_pages : ℕ
  pub next : ℕ
  pub magic : ℕ

-- The static variables, the descriptors, and the parts that the allocator calls.
pub record Vmalloc : Type 0 where
  pub vmalloc_current : ℕ
  pub region_list : ℕ
  pub regions : ℕ → VmRegion
  pub total_regions : ℕ
  pub total_pages_allocated : ℕ
  pub heap : Heap
  pub paging : Paging

-- VM_MAGIC, VMALLOC_START, VMALLOC_END, and PAGE_KERNEL
abbrev pub vm_magic : ℕ
vm_magic = 0xCAFE_BABE

abbrev pub vmalloc_start : ℕ
vmalloc_start = 0x100_0000

abbrev pub vmalloc_end : ℕ
vmalloc_end = 0x1000_0000

abbrev pub page_kernel : ℕ
page_kernel = 3

abbrev pub region_end : VmRegion → ℕ
region_end r = add32 r.virt_addr r.mapped_size

abbrev pub higher : ℕ → ℕ → ℕ
higher highest end = if ltb highest end then end else highest

unfoldable pub highest_from : ℕ → (ℕ → VmRegion) → ℕ → ℕ → ℕ
highest_from zero regions current highest = highest
highest_from (suc fuel) regions current highest =
    let rest =
      highest_from fuel regions (regions current).next
        (higher highest (region_end (regions current))) in
    if current == 0 then highest else rest

unfoldable pub vmalloc_highest_end : ℕ → Vmalloc → ℕ
vmalloc_highest_end fuel v = highest_from fuel v.regions v.region_list vmalloc_start

abbrev pub is_region : VmRegion → ℕ → Bool
is_region r virt_addr = r.magic == vm_magic && r.virt_addr == virt_addr

-- The region and the one before it; NULL twice where there is none.
unfoldable pub find_region : ℕ → (ℕ → VmRegion) → ℕ → ℕ → ℕ → ℕ × ℕ
find_region zero regions virt_addr previous current = (0, 0)
find_region (suc fuel) regions virt_addr previous current =
    let rest = find_region fuel regions virt_addr current (regions current).next in
    if current == 0
    then (0, 0)
    else if is_region (regions current) virt_addr
    then (current, previous)
    else rest

unfoldable pub vmalloc_find_region : ℕ → Vmalloc → ℕ → ℕ × ℕ
vmalloc_find_region fuel v ptr = find_region fuel v.regions ptr 0 v.region_list

unfoldable pub vmalloc_init : Vmalloc → Vmalloc
vmalloc_init v = record v {
  vmalloc_current = vmalloc_start;
  region_list = 0;
  total_regions = 0;
  total_pages_allocated = 0;
}

-- `increment` is the 32-bit pattern of an int; `none` is -1, which leaves all as it is.
unfoldable pub vbrk : ℕ → Vmalloc → ℕ → Option (ℕ × Vmalloc)
vbrk fuel v increment =
    let old_current = v.vmalloc_current in
    let min_current = vmalloc_highest_end fuel v in
    let new_current = add32 v.vmalloc_current increment in
    let least = if ltb new_current min_current then min_current else new_current in
    if increment == 0
    then some (old_current, v)
    else if ltb increment 0x8000_0000
    then if ltb vmalloc_end new_current
      then none
      else some (old_current, record v { vmalloc_current = new_current })
    else some (old_current, record v { vmalloc_current = least })

abbrev pub page_address : ℕ → ℕ → ℕ
page_address virt_addr i = add32 virt_addr (mul32 i 4096)

-- The pages from `i` on are unmapped and their frames given back, with the rounds left.
unfoldable pub roll_back : ℕ → Paging → ℕ → ℕ → Paging
roll_back zero p virt_addr i = p
roll_back (suc rounds) p virt_addr i =
    let addr = page_address virt_addr i in
    let phys = paging_get_physical p addr in
    let q = paging_unmap_page p addr in
    roll_back rounds (record q { pmm = pmm_free_frame q.pmm phys }) virt_addr (i + 1)

-- The page is zeroed through its mapping.
abbrev pub zero_page : Paging → ℕ → Paging
zero_page p addr = record p { memory = clear_page p.memory (paging_get_physical p addr) }

-- Frames for the pages from `i` on. `none` is the panic of the paging; `false` is the end of the
-- frames, behind which the pages mapped so far are given back.
unfoldable pub map_frames : ℕ → Paging → ℕ → ℕ → Option (Bool × Paging)
map_frames zero p virt_addr i = some (true, p)
map_frames (suc rounds) p virt_addr i =
    let (frame, pmm) = pmm_alloc_frame p.pmm in
    let taken = record p { pmm = pmm } in
    let addr = page_address virt_addr i in
    let mapped : Option (Bool × Paging) = elim (paging_map_page taken addr frame page_kernel) [
      | none ↦ none
      | some q ↦ map_frames rounds (zero_page q addr) virt_addr (i + 1)
    ] in
    if frame == 0 then some (false, roll_back i taken virt_addr 0) else mapped

-- The descriptor's fields, and the counters.
unfoldable pub add_region : Vmalloc → ℕ → ℕ → ℕ → Vmalloc
add_region v region size num_pages =
    let alloc_size = mul32 num_pages 4096 in
    let r : VmRegion = record {
      virt_addr = v.vmalloc_current;
      size = size;
      mapped_size = alloc_size;
      num_pages = num_pages;
      next = v.region_list;
      magic = vm_magic;
    } in
    record v {
      regions = λ a. if a == region then r else v.regions a;
      region_list = region;
      total_regions = add32 v.total_regions 1;
      total_pages_allocated = add32 v.total_pages_allocated num_pages;
      vmalloc_current = add32 v.vmalloc_current alloc_size;
    }

abbrev with_heap : Vmalloc → Option Heap → Option (ℕ × Vmalloc)
with_heap v none = none
with_heap v (some heap) = some (0, record v { heap = heap })

-- What follows the pages.
unfoldable pub end_vmalloc : Vmalloc → ℕ → ℕ → ℕ → Option (Bool × Paging) → Option (ℕ × Vmalloc)
unfolding add_region
end_vmalloc v region size num_pages none = none
end_vmalloc v region size num_pages (some (false, paging)) =
    with_heap (record v { paging = paging }) (kfree v.heap region)
end_vmalloc v region size num_pages (some (true, paging)) =
    some (v.vmalloc_current, add_region (record v { paging = paging }) region size num_pages)

abbrev pub pages_of : ℕ → ℕ
pages_of size = add32 size 4095 / 4096

-- What follows the descriptor.
unfoldable pub begin_vmalloc : Vmalloc → ℕ → Option (ℕ × Heap) → Option (ℕ × Vmalloc)
unfolding end_vmalloc map_frames
begin_vmalloc v size none = none
begin_vmalloc v size (some (region, heap)) =
    let pages = pages_of size in
    let w = record v { heap = heap } in
    let placed = end_vmalloc w region size pages (map_frames pages v.paging v.vmalloc_current 0) in
    if region == 0 then some (0, w) else placed

-- The address, 0 for NULL, and the state; `none` is a panic, or the end of the fuel.
unfoldable pub vmalloc : ℕ → Vmalloc → ℕ → Option (ℕ × Vmalloc)
unfolding begin_vmalloc
vmalloc fuel v size =
    let alloc_size = mul32 (pages_of size) 4096 in
    let served = begin_vmalloc v size (kmalloc fuel v.heap 24) in
    if size == 0
    then some (0, v)
    else if ltb vmalloc_end (add32 v.vmalloc_current alloc_size)
    then some (0, v)
    else served

-- The pages of a region from `i` on that are mapped are unmapped and their frames given back, with
-- the rounds left.
unfoldable pub free_pages : ℕ → Paging → ℕ → ℕ → Paging
free_pages zero p virt_addr i = p
free_pages (suc rounds) p virt_addr i =
    let vaddr = page_address virt_addr i in
    let paddr = paging_get_physical p vaddr in
    let unmapped = paging_unmap_page p vaddr in
    let freed = record unmapped { pmm = pmm_free_frame unmapped.pmm paddr } in
    free_pages rounds (if paddr == 0 then p else freed) virt_addr (i + 1)

abbrev pub set_next_region : (ℕ → VmRegion) → ℕ → ℕ → ℕ → VmRegion
set_next_region regions at region a =
    if a == at then record (regions at) { next = region } else regions a

-- The region is taken off the list.
unfoldable pub unlink_region : Vmalloc → ℕ → ℕ → Vmalloc
unlink_region v region previous =
    let next = (v.regions region).next in
    if previous == 0
    then record v { region_list = next }
    else record v { regions = set_next_region v.regions previous next }

abbrev pub clear_magic : (ℕ → VmRegion) → ℕ → ℕ → VmRegion
clear_magic regions region a =
    if a == region then record (regions region) { magic = 0 } else regions a

-- The pages, the counters and the magic of a region that is off the list.
unfoldable pub retire_region : Vmalloc → ℕ → Vmalloc
unfolding free_pages
retire_region v region =
    let r = v.regions region in
    record v {
      paging = free_pages r.num_pages v.paging r.virt_addr 0;
      total_regions = sub32 v.total_regions 1;
      total_pages_allocated = sub32 v.total_pages_allocated r.num_pages;
      regions = clear_magic v.regions region;
    }

unfoldable pub end_vfree : ℕ → Vmalloc → Option Heap → Option Vmalloc
end_vfree fuel v none = none
end_vfree fuel v (some heap) =
    some (record v { heap = heap; vmalloc_current = vmalloc_highest_end fuel v })

-- `none` is the panic, of vfree or of kfree.
unfoldable pub vfree : ℕ → Vmalloc → ℕ → Option Vmalloc
unfolding vmalloc_find_region unlink_region retire_region end_vfree
vfree fuel v ptr =
    let (region, previous) = vmalloc_find_region fuel v ptr in
    let retired = retire_region (unlink_region v region previous) region in
    if ptr == 0
    then some v
    else if region == 0
    then none
    else end_vfree fuel retired (kfree v.heap region)

unfoldable pub vsize : ℕ → Vmalloc → ℕ → ℕ
vsize fuel v ptr =
    let region = (vmalloc_find_region fuel v ptr).0 in
    if ptr == 0 then 0 else if region == 0 then 0 else (v.regions region).size

pub record VmallocStats : Type 0 where
  pub total_virtual : ℕ
  pub used_virtual : ℕ
  pub num_regions : ℕ

unfoldable pub vmalloc_get_stats : Vmalloc → VmallocStats
vmalloc_get_stats v = record {
  total_virtual = mul32 v.total_pages_allocated 4096;
  used_virtual = mul32 v.total_pages_allocated 4096;
  num_regions = v.total_regions;
}
