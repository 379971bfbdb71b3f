-- ===== src/Pmm/Init/Boot.antt =====
-- What `pmm_init` leaves behind: the walk over the memory map ends, and the frames of the first
-- megabyte and of the kernel are reserved.
use Prim.Native.Nat.{min}
use kfs.Base.{
  ℕ, zero, suc, ◌+◌, ◌-◌, ◌*◌, ◌/◌, ◌≤◌, ◌<◌, ◌≡◌, refl, ◌∙◌, true, Bool, ◌||◌, some, arith, ltb,
  ltb→lt, ◌==◌, if◌then◌else◌, Bool-cases, inl, inr, add32, sub32,
}
use kfs.Base.Bits.{test_bit}
use kfs.Pmm.Bitmap.{max_memory}
use kfs.Pmm.Bitmap.Laws.{full-IsBitmap}
use kfs.Pmm.Bitmap.Count.{count_used-full}
use kfs.Pmm.Invariant.{IsValid, is_used}
use kfs.Pmm.Regions.{touches, mark_region-IsValid, pmm_mark_region_used_lem}
use kfs.Pmm.{Pmm}
use kfs.Pmm.Init.{
  MmapEntry, MultibootInfo, visit_entry, next_entry, walk_map, detect_memory, all_used,
  free_available, reserve_kernel, pmm_init,
}

detect_memory-le : (mbi : MultibootInfo) → detect_memory mbi ≤ max_memory
unfolding detect_memory
detect_memory-le mbi = ground arith

pub all_used-IsValid : (n : ℕ) → n ≤ max_memory → IsValid (all_used n)
unfolding all_used
all_used-IsValid n h = record {
  bitmap = full-IsBitmap;
  memory = h;
  frames = refl;
  used = omega (arith, count_used-full (n / 4096) (omega arith));
}

visit_entry-IsValid : {p : Pmm} (e : MmapEntry) → IsValid p → IsValid (visit_entry p e)
unfolding visit_entry
visit_entry-IsValid e v = elim (Bool-cases (e.kind == 1)) [
  | inl h ↦ rw h (mark_region-IsValid e.addr_low e.len_low v).1
  | inr h ↦ rw h v
]

-- No entry below `mmap_end` reaches to the end of the address space.
abbrev pub FitsBelow : (ℕ → MmapEntry) → ℕ → Type 0
FitsBelow entry_at mmap_end = (a : ℕ) → a < mmap_end → a + (entry_at a).size + 4 < 4294967296

module _ (entry_at : ℕ → MmapEntry) (mmap_end : ℕ) (fits : FitsBelow entry_at mmap_end) where
  walk_map-IsValid :
      (fuel : ℕ) (p : Pmm) (at : ℕ)
      → IsValid p
      → 0 < fuel
      → mmap_end < at + fuel
      → (q : Pmm) × (walk_map entry_at fuel mmap_end p at ≡ some q) × IsValid q
  unfolding walk_map next_entry
  walk_map-IsValid zero p at v pos h = absurd (omega arith)
  walk_map-IsValid (suc fuel) p at v pos h = elim (Bool-cases (ltb at mmap_end)) [
    | inl more ↦
        let below : at < mmap_end = ltb→lt _ _ more in
        let next : add32 at (add32 (entry_at at).size 4) ≡ at + (entry_at at).size + 4 =
          omega (arith, fits at below) in
        rw (more, next)
          (walk_map-IsValid fuel _ (at + (entry_at at).size + 4)
            (visit_entry-IsValid (entry_at at) v) (omega arith) (omega arith))
    | inr done ↦ rw done (p, refl, v)
  ]

module _ (entry_at : ℕ → MmapEntry) (mbi : MultibootInfo) where
  free_available-IsValid :
      {p : Pmm}
      → IsValid p
      → mbi.mmap_addr + mbi.mmap_length < 4294967296
      → FitsBelow entry_at (mbi.mmap_addr + mbi.mmap_length)
      → (q : Pmm) × (free_available entry_at mbi p ≡ some q) × IsValid q
  unfolding free_available
  free_available-IsValid {p} v h fits = elim (Bool-cases (test_bit mbi.flags 6)) [
    | inl mapped ↦
        let stop : add32 mbi.mmap_addr mbi.mmap_length ≡ mbi.mmap_addr + mbi.mmap_length =
          omega arith in
        rw (mapped, stop)
          (walk_map-IsValid entry_at (mbi.mmap_addr + mbi.mmap_length) fits (mbi.mmap_length + 1) p
            mbi.mmap_addr v (omega arith) (omega arith))
    | inr bare ↦ rw bare (_, refl, (mark_region-IsValid 0x100000 _ v).1)
  ]

-- The three regions that `pmm_init` reserves at its end: the first megabyte, the kernel, and 64
-- KB behind it.
abbrev pub reserved : ℕ → ℕ → ℕ → Bool
reserved kernel_start kernel_end j =
    touches 0 0x100000 j
    || touches kernel_start (kernel_end - kernel_start) j
    || touches kernel_end 65536 j

module _ (kernel_start kernel_end : ℕ) (ordered : kernel_start ≤ kernel_end)
    (fits : kernel_end + 65536 + 4095 < 4294967296) where
  reserve_kernel-lem :
      {p : Pmm}
      → IsValid p
      → let q = reserve_kernel kernel_start kernel_end p in
        IsValid q
        × (q.total_frames ≡ p.total_frames)
        × ((j : ℕ)
            → j < p.total_frames
            → is_used q j ≡ (if reserved kernel_start kernel_end j then true else is_used p j))
  unfolding reserve_kernel
  reserve_kernel-lem {p} v =
      let size : sub32 kernel_end kernel_start ≡ kernel_end - kernel_start = omega arith in
      let a = mark_region-IsValid 0 0x100000 v in
      let b = mark_region-IsValid kernel_start (kernel_end - kernel_start) a.0 in
      let c = mark_region-IsValid kernel_end 65536 b.0 in
      rw size (
        c.0,
        c.2 ∙ b.2 ∙ a.2,
        λ j lt. ground (
          arith,
          pmm_mark_region_used_lem 0 0x100000 v (omega arith) j lt,
          pmm_mark_region_used_lem kernel_start (kernel_end - kernel_start) a.0 (omega arith) j
              (omega (arith, a.2)),
          pmm_mark_region_used_lem kernel_end 65536 b.0 fits j (omega (arith, a.2, b.2)),
        ),
      )

  -- `pmm_init` comes to an end on a memory map whose entries do not reach round the end of the
  -- address space, and leaves a valid state, in which the first megabyte, the kernel and the 64 KB
  -- behind it are in use.
  pub pmm_init_lem :
      (entry_at : ℕ → MmapEntry) (mbi : MultibootInfo)
      → mbi.mmap_addr + mbi.mmap_length < 4294967296
      → FitsBelow entry_at (mbi.mmap_addr + mbi.mmap_length)
      → (q : Pmm) × (pmm_init entry_at kernel_start kernel_end mbi ≡ some q)
        × IsValid q
        × ((j : ℕ)
            → j < q.total_frames
            → reserved kernel_start kernel_end j ≡ true
            → is_used q j ≡ true)
  unfolding pmm_init
  pmm_init_lem entry_at mbi short entries =
      let (p, e, v) =
        free_available-IsValid entry_at mbi
          (all_used-IsValid (detect_memory mbi) (detect_memory-le mbi)) short entries in
      let r = reserve_kernel-lem v in
      (
        reserve_kernel kernel_start kernel_end p,
        rw (e, pmm_init),
        r.0,
        λ j lt t. ground (arith, r.2 j (omega (arith, r.1))),
      )

-- Up to 4 GB the detected memory is the megabyte below `mem_upper` and `mem_upper` KB, at most
-- MAX_MEMORY. For the next 128 MB the 32-bit product has wrapped: only what lies above 4 GB is
-- counted.
pub detect_memory_lem :
    (mbi : MultibootInfo)
    → test_bit mbi.flags 0 ≡ true
    → (mbi.mem_upper < 4194304 - 1024
        → detect_memory mbi ≡ min max_memory ((mbi.mem_upper + 1024) * 1024))
      × (4194304 - 1024 ≤ mbi.mem_upper
          → mbi.mem_upper < 4194304 - 1024 + 131072
          → detect_memory mbi ≡ (mbi.mem_upper + 1024 - 4194304) * 1024)
unfolding detect_memory
detect_memory_lem mbi h = (ground arith, ground arith)
