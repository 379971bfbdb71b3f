-- ===== src/Kmalloc.antt =====
-- The kernel heap, kernel/src/kmalloc.c. The headers of the blocks lie in a store, a header to an
-- address; a pointer is its address, 0 for NULL, and the payload follows the header of 24 bytes.
pub mod Chain
pub mod Moves
pub mod Split
pub mod Alloc
pub mod Append
pub mod Outcome
pub mod Merge
pub mod Free
pub mod Release
pub mod Kfree
pub mod Keep
pub mod Fresh
mod Tests
use kfs.Base.{
  ℕ, zero, suc, ◌+◌, ◌-◌, ◌*◌, ◌/◌, Bool, true, false, not, ◌&&◌, Option, none, some, ltb, leb,
  ◌==◌, if◌then◌else◌, add32, sub32, not32, bit_and,
}
use kfs.Pmm.{Pmm, page_align_up, pmm_mark_region_used}

-- `block_header_t`
pub record Block : Type 0 where
  pub size : ℕ
  pub free : Bool
  pub next : ℕ
  pub prev : ℕ
  pub magic : ℕ

pub record Heap : Type 0 where
  pub heap_start : ℕ
  pub heap_end : ℕ
  pub heap_max : ℕ
  pub block_list : ℕ
  pub headers : ℕ → Block
  pub total_allocations : ℕ
  pub total_frees : ℕ

-- BLOCK_MAGIC, MIN_BLOCK_SIZE, ALIGN and HEADER_SIZE: a header has 20 bytes.
abbrev pub block_magic : ℕ
block_magic = 0xDEAD_BEEF

abbrev pub min_block_size : ℕ
min_block_size = 16

abbrev pub align : ℕ → ℕ
align size = add32 size 7 / 8 * 8

abbrev pub header_size : ℕ
header_size = 24

unfoldable pub kmalloc_init : ℕ → Heap × Pmm → Heap × Pmm
kmalloc_init kernel_end (h, p) =
    let start = page_align_up (add32 kernel_end 0x10000) in
    let max = add32 start 0x80_0000 in
    (
      record h {
        heap_start = start;
        heap_end = start;
        heap_max = max;
        block_list = 0;
        total_allocations = 0;
        total_frees = 0;
      },
      pmm_mark_region_used p start (sub32 max start),
    )

-- The `int` increment is its 32-bit pattern, negative from 2 ^ 31 on. `none` is (void*)-1.
unfoldable pub kbrk : Heap → ℕ → Option (ℕ × Heap)
kbrk h increment =
    let new_end = add32 h.heap_end increment in
    let grown =
      if ltb h.heap_max new_end then none else some (h.heap_end, record h { heap_end = new_end }) in
    let lower = if ltb new_end h.heap_start then h.heap_start else new_end in
    if increment == 0
    then some (h.heap_end, h)
    else if ltb increment 0x8000_0000
    then grown
    else some (h.heap_end, record h { heap_end = lower })

-- A field of the block at an address is written.
abbrev pub update : (ℕ → Block) → ℕ → Block → ℕ → Block
update m at b a = if a == at then b else m a

-- The walks along the list take fuel, and answer `none` where it runs out. The result of this one
-- is a pointer.
unfoldable pub find_free_block : ℕ → (ℕ → Block) → ℕ → ℕ → Option ℕ
find_free_block zero m size current = none
find_free_block (suc fuel) m size current =
    let rest = find_free_block fuel m size (m current).next in
    if current == 0
    then some 0
    else if (m current).free && leb size (m current).size
    then some current
    else rest

-- `while (last->next) last = last->next;`
unfoldable pub find_last : ℕ → (ℕ → Block) → ℕ → Option ℕ
find_last zero m last = none
find_last (suc fuel) m last =
    let rest = find_last fuel m (m last).next in if (m last).next == 0 then some last else rest

-- `if (at) at->prev = block`
abbrev pub set_prev : (ℕ → Block) → ℕ → ℕ → ℕ → Block
set_prev m at block = if at == 0 then m else update m at (record (m at) { prev = block })

-- The writes of `split_block`; `rest` is the new block.
abbrev pub cut_block : (ℕ → Block) → ℕ → ℕ → ℕ → Block → ℕ → Block
cut_block m block new_block size rest =
    let linked = set_prev (update m new_block rest) rest.next new_block in
    update linked block (record (linked block) { next = new_block; size = size })

unfoldable pub split_block : (ℕ → Block) → ℕ → ℕ → ℕ → Block
split_block m block size =
    let b = m block in
    let rest : Block = record {
      size = sub32 (sub32 b.size size) header_size;
      free = true;
      next = b.next;
      prev = block;
      magic = block_magic;
    } in
    if leb (add32 (add32 size header_size) min_block_size) b.size
    then cut_block m block (add32 (add32 block header_size) size) size rest
    else m

-- The two halves of `coalesce_blocks`.
unfoldable pub absorb_next : (ℕ → Block) → ℕ → ℕ → Block
absorb_next m block =
    let b = m block in
    let n = m b.next in
    let merged =
      update m block (record b { size = add32 b.size (add32 header_size n.size); next = n.next }) in
    if not (b.next == 0) && n.free then set_prev merged n.next block else m

unfoldable pub absorb_into_prev : (ℕ → Block) → ℕ → ℕ → Block
absorb_into_prev m block =
    let b = m block in
    let q = m b.prev in
    let merged =
      update m b.prev
        (record q { size = add32 q.size (add32 header_size b.size); next = b.next }) in
    if not (b.prev == 0) && q.free then set_prev merged b.next b.prev else m

unfoldable pub coalesce_blocks : (ℕ → Block) → ℕ → ℕ → Block
coalesce_blocks m block = absorb_into_prev (absorb_next m block) block

abbrev pub request : ℕ → ℕ
request size = if ltb (align size) min_block_size then min_block_size else align size

-- A free block is taken.
unfoldable pub take_block : Heap → ℕ → ℕ → ℕ × Heap
take_block h block size =
    let m = split_block h.headers block size in
    (
      add32 block header_size,
      record h {
        headers = update m block (record (m block) { free = false });
        total_allocations = add32 h.total_allocations 1;
      },
    )

-- A new block at `block` is put at the end of the list.
unfoldable pub append_block : ℕ → Heap → ℕ → ℕ → Option (ℕ × Heap)
append_block fuel h block size =
    let fresh : Block = record {
      size = size;
      free = false;
      next = 0;
      prev = 0;
      magic = block_magic;
    } in
    let m = update h.headers block fresh in
    let done : (ℕ → Block) → ℕ → ℕ × Heap = λ headers list. (
      add32 block header_size,
      record h {
        headers = headers;
        block_list = list;
        total_allocations = add32 h.total_allocations 1;
      },
    ) in
    if h.block_list == 0 then some (done m block) else elim (find_last fuel m h.block_list) [
      | none ↦ none
      | some last ↦
          let linked = update m last (record (m last) { next = block }) in
          some (done (update linked block (record (linked block) { prev = last })) h.block_list)
    ]

-- The payload's address, 0 for NULL, and the heap; `none` where the fuel runs out.
unfoldable pub kmalloc : ℕ → Heap → ℕ → Option (ℕ × Heap)
kmalloc fuel h size =
    let wanted = request size in
    let extended : Option (ℕ × Heap) = elim (kbrk h (add32 header_size wanted)) [
      | none ↦ some (0, h)
      | some (block, grown) ↦ append_block fuel grown block wanted
    ] in
    let served : Option (ℕ × Heap) = elim (find_free_block fuel h.headers wanted h.block_list) [
      | none ↦ none
      | some block ↦ if block == 0 then extended else some (take_block h block wanted)
    ] in
    if size == 0 then some (0, h) else served

unfoldable pub kmalloc_aligned : ℕ → Heap → ℕ → ℕ → Option (ℕ × Heap)
kmalloc_aligned fuel h size alignment = elim (kmalloc fuel h (add32 size alignment)) [
  | none ↦ none
  | some (addr, h') ↦ some (
    if addr == 0 then 0 else bit_and (sub32 (add32 addr alignment) 1) (not32 (sub32 alignment 1)),
    h',
  )
]

-- `none` is the panic.
unfoldable pub kfree : Heap → ℕ → Option Heap
kfree h ptr =
    let block = sub32 ptr header_size in
    let b = h.headers block in
    if ptr == 0
    then some h
    else if not (b.magic == block_magic)
    then none
    else if b.free
    then some h
    else some (record h {
      headers = coalesce_blocks (update h.headers block (record b { free = true })) block;
      total_frees = add32 h.total_frees 1;
    })

unfoldable pub ksize : Heap → ℕ → ℕ
ksize h ptr =
    let b = h.headers (sub32 ptr header_size) in
    if ptr == 0 then 0 else if not (b.magic == block_magic) then 0 else b.size

pub record KmallocStats : Type 0 where
  pub heap_size : ℕ
  pub used_size : ℕ
  pub free_size : ℕ
  pub num_allocations : ℕ
  pub num_free_blocks : ℕ

-- One block counted.
abbrev pub count_block : KmallocStats → Block → KmallocStats
count_block s b =
    if b.free
    then record s {
      free_size = add32 s.free_size b.size;
      num_free_blocks = add32 s.num_free_blocks 1;
    }
    else record s {
      used_size = add32 s.used_size (add32 b.size header_size);
      num_allocations = add32 s.num_allocations 1;
    }

unfoldable pub count_blocks : ℕ → (ℕ → Block) → ℕ → KmallocStats → Option KmallocStats
count_blocks zero m current s = none
count_blocks (suc fuel) m current s =
    let rest = count_blocks fuel m (m current).next (count_block s (m current)) in
    if current == 0 then some s else rest

unfoldable pub kmalloc_get_stats : ℕ → Heap → Option KmallocStats
unfolding count_blocks
kmalloc_get_stats fuel h = count_blocks fuel h.headers h.block_list (record {
  heap_size = sub32 h.heap_end h.heap_start;
  used_size = 0;
  free_size = 0;
  num_allocations = 0;
  num_free_blocks = 0;
})
