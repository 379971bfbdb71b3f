-- ===== src/Pmm/Init.antt =====
-- `pmm_init` of kernel/src/pmm.c, with the walk over the memory map of kernel/include/multiboot.h.
-- What the boot loader left in memory is read through the argument `entry_at`.
pub mod Boot
use kfs.Base.{
  ℕ, zero, suc, ◌+◌, ◌/◌, Option, none, some, ltb, ◌==◌, if◌then◌else◌, replicate, add32, sub32,
  mul32,
}
use kfs.Base.Bits.{test_bit}
use kfs.Pmm.Bitmap.{bitmap_size, max_memory}
use kfs.Pmm.{Pmm, pmm_mark_region_used, pmm_mark_region_free}

-- The fields of `multiboot_mmap_entry_t` and of `multiboot_info_t` that are read.
pub record MmapEntry : Type 0 where
  pub size : ℕ
  pub addr_low : ℕ
  pub len_low : ℕ
  pub kind : ℕ

pub record MultibootInfo : Type 0 where
  pub flags : ℕ
  pub mem_upper : ℕ
  pub mmap_addr : ℕ
  pub mmap_length : ℕ

-- The body of the loop: MULTIBOOT_MEMORY_AVAILABLE is 1.
unfoldable pub visit_entry : Pmm → MmapEntry → Pmm
visit_entry p e = if e.kind == 1 then pmm_mark_region_free p e.addr_low e.len_low else p

-- MMAP_ENTRY_NEXT
unfoldable pub next_entry : ℕ → MmapEntry → ℕ
next_entry at e = add32 at (add32 e.size 4)

-- Bit 0 of the flags is MULTIBOOT_INFO_MEMORY. The product wraps at 32 bits.
unfoldable pub detect_memory : MultibootInfo → ℕ
detect_memory mbi =
    let total = mul32 (add32 mbi.mem_upper 1024) 1024 in
    if test_bit mbi.flags 0 then if ltb max_memory total then max_memory else total else 16777216

unfoldable pub all_used : ℕ → Pmm
all_used total_memory = record {
  frame_bitmap = replicate bitmap_size 255;
  total_memory = total_memory;
  total_frames = total_memory / 4096;
  used_frames = total_memory / 4096;
}

-- `kernel_start` and `kernel_end` are the linker's addresses.
unfoldable pub reserve_kernel : ℕ → ℕ → Pmm → Pmm
reserve_kernel kernel_start kernel_end p =
    let low = pmm_mark_region_used p 0 0x100000 in
    let kernel = pmm_mark_region_used low kernel_start (sub32 kernel_end kernel_start) in
    pmm_mark_region_used kernel kernel_end 65536

module _ (entry_at : ℕ → MmapEntry) where
  -- `while (mmap < mmap_end)`; `none` means that the fuel ran out.
  unfoldable pub walk_map : ℕ → ℕ → Pmm → ℕ → Option Pmm
  walk_map zero mmap_end p at = none
  walk_map (suc fuel) mmap_end p at =
      let e = entry_at at in
      let rest = walk_map fuel mmap_end (visit_entry p e) (next_entry at e) in
      if ltb at mmap_end then rest else some p

  -- Bit 6 is MULTIBOOT_INFO_MEM_MAP. An entry takes up at least 4 bytes, so `mmap_length + 1`
  -- rounds are enough.
  unfoldable pub free_available : MultibootInfo → Pmm → Option Pmm
  free_available mbi p =
      let mapped =
        walk_map (mbi.mmap_length + 1) (add32 mbi.mmap_addr mbi.mmap_length) p mbi.mmap_addr in
      if test_bit mbi.flags 6
      then mapped
      else some (pmm_mark_region_free p 0x100000 (sub32 p.total_memory 0x100000))

  unfoldable pub pmm_init : ℕ → ℕ → MultibootInfo → Option Pmm
  unfolding detect_memory all_used free_available walk_map reserve_kernel visit_entry next_entry
  pmm_init kernel_start kernel_end mbi = elim (free_available mbi (all_used (detect_memory mbi))) [
    | none ↦ none
    | some p ↦ some (reserve_kernel kernel_start kernel_end p)
  ]
