-- ===== src/Process/Memory.antt =====
-- The address space of a process, kernel/src/process.c: four pages of its own behind the kernel's
-- mappings. `process_page_directories` is an array in the kernel's image, a page to a slot. `none`
-- is the panic of the paging for want of a frame.
use kfs.Base.{
  ℕ, ◌+◌, ◌*◌, Bool, true, false, ◌||◌, Option, none, some, ltb, ◌==◌, if◌then◌else◌, add32,
}
use kfs.Pmm.{pmm_alloc_frame, pmm_free_frame}
use kfs.Paging.{
  Paging, page_dir_index, page_frame, entry_at, write, clear_page, paging_map_page_in_directory,
  paging_unmap_page_in_directory, paging_copy_directory,
}
use kfs.Process.{Kernel, ProcessMemory, no_memory, modify}
use kfs.Process.Links.{process_slot_index, process_virtual_base_for_slot}

unfoldable pub process_reset_memory : ProcessMemory
process_reset_memory = record no_memory { page_size = 4096 }

-- A page of a process is unmapped and its frame given back, unless there is none.
unfoldable pub release_page : Paging → ℕ → ℕ → ℕ → Paging
release_page p directory page virt_addr =
    let q = paging_unmap_page_in_directory p directory virt_addr in
    if page == 0 then p else record q { pmm = pmm_free_frame q.pmm page }

unfoldable pub release_table : Paging → ProcessMemory → Paging
release_table p m =
    if m.process_page_directory == 0 || m.process_page_table == 0 then p else record p {
      memory = write p.memory (entry_at m.process_page_directory (page_dir_index m.virtual_base)) 0;
      pmm = pmm_free_frame p.pmm m.process_page_table;
    }

unfoldable pub release_pages : Paging → ProcessMemory → Paging
unfolding release_page release_table
release_pages p m =
    let code = release_page p m.process_page_directory m.data_page m.data_start in
    let bss = release_page code m.process_page_directory m.bss_page m.bss_start in
    let heap = release_page bss m.process_page_directory m.heap_page m.heap_start in
    let stack = release_page heap m.process_page_directory m.stack_page m.stack_base in
    release_table stack m

unfoldable pub process_release_memory : Kernel → ℕ → Kernel
unfolding release_pages process_reset_memory
process_release_memory k process =
    let released = record k { paging = release_pages k.paging (k.process_table process).memory } in
    modify released process (λ p. record p { memory = process_reset_memory })

abbrev pub page_user_rw : ℕ
page_user_rw = 7

abbrev clear_mapped : ℕ → Option Paging → Option (Option ℕ × Paging)
clear_mapped page none = none
clear_mapped page (some q) = some (some page, record q { memory = clear_page q.memory page })

-- The frame, which the caller stores, or `none` for -1; the frame is taken before the test of the
-- pointer.
unfoldable pub alloc_process_page : Kernel → ℕ → ℕ → Option (Option ℕ × Paging)
alloc_process_page k process virtual_page =
    let (page, pmm) = pmm_alloc_frame k.paging.pmm in
    let taken = record k.paging { pmm = pmm } in
    let directory = (k.process_table process).memory.process_page_directory in
    if process == 0 || page == 0
    then some (none, taken)
    else clear_mapped page
        (paging_map_page_in_directory taken directory virtual_page page page_user_rw)

-- `if (alloc_process_page(process, …, &…) != 0) return -1;`, with what `&…` names.
unfoldable pub store_page :
    Kernel
    → ℕ
    → (ℕ → ProcessMemory → ProcessMemory)
    → Option (Option ℕ × Paging)
    → Option (Bool × Kernel)
store_page k process put none = none
store_page k process put (some (none, paging)) = some (false, record k { paging = paging })
store_page k process put (some (some page, paging)) = some (
  true,
  modify (record k { paging = paging }) process (λ p. record p { memory = put page p.memory }),
)

abbrev pub and_then :
    Option (Bool × Kernel) → (Kernel → Option (Bool × Kernel)) → Option (Bool × Kernel)
and_then none next = none
and_then (some (false, k)) next = some (false, k)
and_then (some (true, k)) next = next k

unfoldable pub add_page :
    ℕ → ℕ → (ℕ → ProcessMemory → ProcessMemory) → Kernel → Option (Bool × Kernel)
unfolding alloc_process_page store_page
add_page process virtual_page put k =
    store_page k process put (alloc_process_page k process virtual_page)

-- The four pages, up to the first that fails.
unfoldable pub map_pages : Kernel → ℕ → Option (Bool × Kernel)
unfolding add_page
map_pages k process =
    let m = (k.process_table process).memory in
    let with_data = add_page process m.data_start (λ f q. record q { data_page = f }) k in
    let with_bss =
      and_then with_data (add_page process m.bss_start (λ f q. record q { bss_page = f })) in
    let with_heap =
      and_then with_bss (add_page process m.heap_start (λ f q. record q { heap_page = f })) in
    and_then with_heap (add_page process m.stack_base (λ f q. record q { stack_page = f }))

-- The layout of the address space.
abbrev pub lay_out : ℕ → ℕ → ProcessMemory → ProcessMemory
lay_out directory base m =
    let heap = add32 base 8192 in
    let stack = add32 base 12288 in
    record m {
      process_page_directory = directory;
      page_size = 4096;
      virtual_base = base;
      virtual_page = base;
      process_page = base;
      data_start = base;
      data_end = add32 base 4096;
      bss_start = add32 base 4096;
      bss_end = add32 (add32 base 4096) 4096;
      heap_start = heap;
      heap_break = heap;
      heap_end = add32 heap 4096;
      stack_base = stack;
      stack_top = add32 stack 4096;
    }

-- The last lines, after the four pages.
abbrev pub finish_map : Kernel → ℕ → Kernel
finish_map k process =
    let m = (k.process_table process).memory in
    let entry =
      k.paging.memory (entry_at m.process_page_directory (page_dir_index m.virtual_base)) in
    modify k process (λ p. record p {
      memory = record m { physical_page = m.data_page; process_page_table = page_frame entry };
    })

unfoldable pub end_map : ℕ → Option (Bool × Kernel) → Option (Bool × Kernel)
unfolding process_release_memory
end_map process none = none
end_map process (some (false, k)) = some (false, process_release_memory k process)
end_map process (some (true, k)) = some (true, finish_map k process)

module _ (process_page_directories : ℕ) where
  -- The layout, and the copy of the kernel's mappings.
  unfoldable pub prepare_map : Kernel → ℕ → Kernel
  prepare_map k process =
      let slot = process_slot_index process in
      let base = (k.process_table process).memory.virtual_base in
      let virtual_base = if base == 0 then process_virtual_base_for_slot slot else base in
      let directory = process_page_directories + 4096 * slot in
      let placed =
        modify k process (λ p. record p { memory = lay_out directory virtual_base p.memory }) in
      record placed { paging = paging_copy_directory k.paging directory k.paging.kernel_directory }

  -- `false` is -1, after which the pages are given back.
  unfoldable pub process_memory_map : Kernel → ℕ → Option (Bool × Kernel)
  unfolding map_pages end_map prepare_map
  process_memory_map k process =
      if process == 0
      then some (false, k)
      else end_map process (map_pages (prepare_map k process) process)

unfoldable pub process_memory_alloc : Kernel → ℕ → ℕ → Option Kernel
process_memory_alloc k process size =
    let m = (k.process_table process).memory in
    let heap_break = add32 m.heap_break size in
    if process == 0 || size == 0
    then none
    else if ltb m.heap_end heap_break
    then none
    else some (modify k process (λ p. record p { memory = record m { heap_break = heap_break } }))

-- The address, and the state; `none` is NULL.
unfoldable pub process_mmap : Kernel → ℕ → ℕ → Option (ℕ × Kernel)
unfolding process_memory_alloc
process_mmap k process size =
    let old_break = (k.process_table process).memory.heap_break in
    if process == 0 || size == 0
    then none
    else elim (process_memory_alloc k process size) [ none ↦ none | some q ↦ some (old_break, q) ]
