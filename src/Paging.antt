-- ===== src/Paging.antt =====
-- Page directories and page tables, kernel/src/paging.c. Both lie in memory, a word to an entry;
-- a pointer is its address, 0 for NULL. The low memory is mapped to itself, so the address of a
-- table's frame is its pointer. Flags fill the low 12 bits of an entry and frames the others, so
-- `|` of the two is a sum. What the processor does with CR0, CR3 and the TLB is left out.
pub mod Space
pub mod Table
pub mod Create
pub mod Mapping
pub mod Lookup
pub mod Copy
pub mod Boot
pub mod Identity
mod Tests
use kfs.Base.{
  ℕ, zero, suc, ◌+◌, ◌-◌, ◌*◌, ◌/◌, ◌%◌, Bool, true, false, ◌&&◌, ◌||◌, Option, none, some, ltb,
  leb, ◌==◌, if◌then◌else◌, add32,
}
use kfs.Pmm.{Pmm, pmm_alloc_frame, page_align_down, page_align_up}

pub record Paging : Type 0 where
  pub pmm : Pmm
  pub memory : ℕ → ℕ
  pub current_directory : ℕ
  pub kernel_directory : ℕ

-- PAGE_DIR_INDEX, PAGE_TABLE_INDEX, PAGE_OFFSET and PAGE_FRAME
abbrev pub page_dir_index : ℕ → ℕ
page_dir_index addr = addr / 4194304 % 1024

abbrev pub page_table_index : ℕ → ℕ
page_table_index addr = addr / 4096 % 1024

abbrev pub page_offset : ℕ → ℕ
page_offset addr = addr % 4096

abbrev pub page_frame : ℕ → ℕ
page_frame entry = entry / 4096 * 4096

-- `& PAGE_PRESENT` and `& PAGE_USER`, and `|= PAGE_USER`
abbrev pub is_present : ℕ → Bool
is_present entry = entry % 2 == 1

abbrev pub is_user : ℕ → Bool
is_user flags = flags / 4 % 2 == 1

abbrev pub add_user : ℕ → ℕ → ℕ
add_user flags entry = if is_user flags then if is_user entry then entry else entry + 4 else entry

-- The address of `entries[index]`.
abbrev pub entry_at : ℕ → ℕ → ℕ
entry_at base index = base + 4 * index

abbrev pub write : (ℕ → ℕ) → ℕ → ℕ → ℕ → ℕ
write memory addr word a = if a == addr then word else memory a

-- `memset_paging(table, 0, sizeof(page_table_t))`
abbrev pub clear_page : (ℕ → ℕ) → ℕ → ℕ → ℕ
clear_page memory base a = if leb base a && ltb a (base + 4096) then 0 else memory a

-- The table, and the state behind the call; `none` is the panic for want of a frame.
unfoldable pub paging_get_or_create_table : Paging → ℕ → ℕ → ℕ → Option (ℕ × Paging)
paging_get_or_create_table p directory virt_addr flags =
    let slot = entry_at directory (page_dir_index virt_addr) in
    let entry = p.memory slot in
    let (table_phys, pmm) = pmm_alloc_frame p.pmm in
    let created =
      if table_phys == 0
      then none
      else some (
        table_phys,
        record p {
          pmm = pmm;
          memory = write (clear_page p.memory table_phys) slot (add_user flags (table_phys + 3));
        },
      ) in
    if is_present entry
    then some (page_frame entry, record p { memory = write p.memory slot (add_user flags entry) })
    else created

-- The entry that maps a frame.
abbrev pub mapping : ℕ → ℕ → ℕ
mapping phys_addr flags = page_frame phys_addr + flags % 4096

abbrev pub store_mapping : ℕ → ℕ → ℕ → Option (ℕ × Paging) → Option Paging
store_mapping virt_addr phys_addr flags none = none
store_mapping virt_addr phys_addr flags (some (table, p)) = some (record p {
  memory = write p.memory (entry_at table (page_table_index virt_addr)) (mapping phys_addr flags);
})

-- `none` is the panic.
unfoldable pub paging_map_page_in_directory : Paging → ℕ → ℕ → ℕ → ℕ → Option Paging
unfolding paging_get_or_create_table
paging_map_page_in_directory p directory virt_addr phys_addr flags =
    if directory == 0
    then some p
    else store_mapping virt_addr phys_addr flags
        (paging_get_or_create_table p directory virt_addr flags)

unfoldable pub paging_map_page : Paging → ℕ → ℕ → ℕ → Option Paging
paging_map_page p virt_addr phys_addr flags =
    paging_map_page_in_directory p p.current_directory virt_addr phys_addr flags

unfoldable pub paging_unmap_page_in_directory : Paging → ℕ → ℕ → Paging
paging_unmap_page_in_directory p directory virt_addr =
    let entry = p.memory (entry_at directory (page_dir_index virt_addr)) in
    let slot = entry_at (page_frame entry) (page_table_index virt_addr) in
    if directory == 0
    then p
    else if is_present entry
    then record p { memory = write p.memory slot 0 }
    else p

unfoldable pub paging_unmap_page : Paging → ℕ → Paging
paging_unmap_page p virt_addr = paging_unmap_page_in_directory p p.current_directory virt_addr

-- The physical address, 0 where nothing is mapped.
unfoldable pub paging_get_physical_in_directory : Paging → ℕ → ℕ → ℕ
paging_get_physical_in_directory p directory virt_addr =
    let entry = p.memory (entry_at directory (page_dir_index virt_addr)) in
    let page = p.memory (entry_at (page_frame entry) (page_table_index virt_addr)) in
    if directory == 0
    then 0
    else if is_present entry
    then if is_present page then page_frame page + page_offset virt_addr else 0
    else 0

unfoldable pub paging_get_physical : Paging → ℕ → ℕ
paging_get_physical p virt_addr = paging_get_physical_in_directory p p.current_directory virt_addr

unfoldable pub paging_is_mapped : Paging → ℕ → Bool
paging_is_mapped p virt_addr =
    let entry = p.memory (entry_at p.current_directory (page_dir_index virt_addr)) in
    let page = p.memory (entry_at (page_frame entry) (page_table_index virt_addr)) in
    if is_present entry then is_present page else false

-- `destination->entries[i] = source->entries[i]` for the entries from `index` on, with the rounds
-- left.
unfoldable pub copy_entries : (ℕ → ℕ) → ℕ → ℕ → ℕ → ℕ → ℕ → ℕ
copy_entries memory destination source zero index = memory
copy_entries memory destination source (suc rounds) index =
    copy_entries (write memory (entry_at destination index) (memory (entry_at source index)))
      destination source rounds (index + 1)

unfoldable pub paging_copy_directory : Paging → ℕ → ℕ → Paging
paging_copy_directory p destination source =
    if destination == 0 || source == 0 then p else record p {
      memory = copy_entries (clear_page p.memory destination) destination source 1024 0;
    }

unfoldable pub paging_switch_directory : Paging → ℕ → Paging
paging_switch_directory p directory =
    if directory == 0 then p else record p { current_directory = directory }

-- The loop of `paging_identity_map`, with the rounds left.
unfoldable pub identity_map_from : ℕ → Paging → ℕ → ℕ → ℕ → Option Paging
identity_map_from zero p addr end flags = some p
identity_map_from (suc rounds) p addr end flags =
    let next : Option Paging = elim (paging_map_page p addr addr flags) [
      | none ↦ none
      | some q ↦ identity_map_from rounds q (add32 addr 4096) end flags
    ] in
    if ltb addr end then next else some p

-- Both ends are multiples of the page size, so the loop makes as many rounds as there are pages
-- between them.
unfoldable pub paging_identity_map : Paging → ℕ → ℕ → ℕ → Option Paging
unfolding identity_map_from
paging_identity_map p start end flags =
    let first = page_align_down start in
    let last = page_align_up end in identity_map_from ((last - first) / 4096) p first last flags

-- `kernel_page_tables[i].entries[j] = phys_addr | PAGE_KERNEL` for the entries from `j` on, with
-- the rounds left.
unfoldable pub fill_table : (ℕ → ℕ) → ℕ → ℕ → ℕ → ℕ → ℕ → ℕ
fill_table memory table i zero j = memory
fill_table memory table i (suc rounds) j =
    fill_table (write memory (entry_at table j) ((i * 1024 + j) * 4096 + 3)) table i rounds (j + 1)

-- The addresses of `kernel_page_directory` and of `kernel_page_tables`, which lie in pages of their
-- own.
module _ (kernel_page_directory kernel_page_tables : ℕ) where
  abbrev pub kernel_table : ℕ → ℕ
  kernel_table i = kernel_page_tables + 4096 * i

  -- The second loop of `paging_init`, from table `i` on.
  unfoldable pub map_tables : (ℕ → ℕ) → ℕ → ℕ → ℕ → ℕ
  map_tables memory zero i = memory
  map_tables memory (suc rounds) i =
      let filled = fill_table memory (kernel_table i) i 1024 0 in
      map_tables (write filled (entry_at kernel_page_directory i) (kernel_table i + 3)) rounds
        (i + 1)

  -- The first loop.
  unfoldable pub clear_tables : (ℕ → ℕ) → ℕ → ℕ → ℕ → ℕ
  clear_tables memory zero i = memory
  clear_tables memory (suc rounds) i =
      clear_tables (clear_page memory (kernel_table i)) rounds (i + 1)

  unfoldable pub paging_init : Paging → Paging
  paging_init p =
      let cleared = clear_tables (clear_page p.memory kernel_page_directory) 4 0 in
      record p {
        memory = map_tables cleared 4 0;
        current_directory = kernel_page_directory;
        kernel_directory = kernel_page_directory;
      }
