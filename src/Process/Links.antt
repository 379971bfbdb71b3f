-- ===== src/Process/Links.antt =====
-- The process table and its lists, kernel/src/process.c: free slots, the list of all processes
-- through `next`, and each process's children through `next_sibling`. A list holds records of the
-- table, so a walk along it has at most as many rounds as the table has slots.
use kfs.Base.{ℕ, zero, suc, ◌+◌, true, ◌&&◌, ◌||◌, ◌==◌, if◌then◌else◌, add32, mul32}
use kfs.Process.{Process, Kernel, process_max_count, no_process, update}

abbrev pub process_slot_index : ℕ → ℕ
process_slot_index zero = 0
process_slot_index (suc slot) = slot

abbrev pub process_virtual_base_for_slot : ℕ → ℕ
process_virtual_base_for_slot slot = add32 0x200_0000 (mul32 slot 0x2_0000)

-- The first free slot from `slot` on, 0 where there is none.
unfoldable pub free_slot : ℕ → (ℕ → Process) → ℕ → ℕ
free_slot zero m slot = 0
free_slot (suc rounds) m slot =
    let rest = free_slot rounds m (slot + 1) in if (m (slot + 1)).used then rest else slot

-- Slot 0 is the kernel's.
unfoldable pub process_allocate_slot : (ℕ → Process) → ℕ × (ℕ → Process)
process_allocate_slot m =
    let slot = free_slot 15 m 1 in
    if slot == 0
    then (0, m)
    else (slot + 1, update m (slot + 1) (record no_process { used = true }))

-- `while (tail->next != NULL) tail = tail->next;`
unfoldable pub find_tail : ℕ → (ℕ → Process) → ℕ → ℕ
find_tail zero m tail = tail
find_tail (suc rounds) m tail =
    let rest = find_tail rounds m (m tail).next in if (m tail).next == 0 then tail else rest

abbrev pub set_next : (ℕ → Process) → ℕ → ℕ → ℕ → Process
set_next m at process = update m at (record (m at) { next = process })

-- The list's head, and the table.
unfoldable pub process_link_global : ℕ × (ℕ → Process) → ℕ → ℕ × (ℕ → Process)
process_link_global (head, m) process =
    if head == 0
    then (process, m)
    else (head, set_next m (find_tail process_max_count m head) process)

-- What the walk does where `cursor` is the process.
abbrev pub cut_next : ℕ × (ℕ → Process) → ℕ → ℕ → ℕ × (ℕ → Process)
cut_next (head, m) previous process =
    if previous == 0
    then ((m process).next, set_next m process 0)
    else (head, set_next (set_next m previous (m process).next) process 0)

unfoldable pub unlink_next : ℕ → ℕ × (ℕ → Process) → ℕ → ℕ → ℕ → ℕ × (ℕ → Process)
unlink_next zero (head, m) process previous cursor = (head, m)
unlink_next (suc rounds) (head, m) process previous cursor =
    let rest = unlink_next rounds (head, m) process cursor (m cursor).next in
    if cursor == 0
    then (head, m)
    else if cursor == process
    then cut_next (head, m) previous process
    else rest

-- The walk sees the end of the list in a round of its own.
unfoldable pub process_unlink_global : ℕ × (ℕ → Process) → ℕ → ℕ × (ℕ → Process)
process_unlink_global (head, m) process =
    unlink_next (process_max_count + 1) (head, m) process 0 head

abbrev pub set_sibling : (ℕ → Process) → ℕ → ℕ → ℕ → Process
set_sibling m at process = update m at (record (m at) { next_sibling = process })

-- `child->parent = parent; child->next_sibling = NULL;`
unfoldable pub join_child : (ℕ → Process) → ℕ → ℕ → ℕ → Process
join_child m parent child = update m child (record (m child) { parent = parent; next_sibling = 0 })

-- The child is put before the children that the parent has.
unfoldable pub chain_child : (ℕ → Process) → ℕ → ℕ → ℕ → Process
chain_child m parent child =
    if (m parent).children == 0 then m else set_sibling m child (m parent).children

unfoldable pub adopt_child : (ℕ → Process) → ℕ → ℕ → ℕ → Process
adopt_child m parent child = update m parent (record (m parent) { children = child })

unfoldable pub process_link_child : (ℕ → Process) → ℕ → ℕ → ℕ → Process
process_link_child m parent child =
    let joined = join_child m parent child in
    if parent == 0 then joined else adopt_child (chain_child joined parent child) parent child

-- What the walk does where `cursor` is the process.
abbrev pub cut_sibling : (ℕ → Process) → ℕ → ℕ → ℕ → Process
cut_sibling m previous process =
    let next = (m process).next_sibling in
    let parent = (m process).parent in
    let cut =
      if previous == 0
      then update m parent (record (m parent) { children = next })
      else set_sibling m previous next in
    update cut process (record (cut process) { next_sibling = 0; parent = 0 })

unfoldable pub unlink_sibling : ℕ → (ℕ → Process) → ℕ → ℕ → ℕ → ℕ → Process
unlink_sibling zero m process previous cursor = m
unlink_sibling (suc rounds) m process previous cursor =
    let rest = unlink_sibling rounds m process cursor (m cursor).next_sibling in
    if cursor == 0 then m else if cursor == process then cut_sibling m previous process else rest

unfoldable pub process_unlink_child : (ℕ → Process) → ℕ → ℕ → Process
process_unlink_child m process =
    let parent = (m process).parent in
    if process == 0 || parent == 0
    then m
    else unlink_sibling (process_max_count + 1) m process 0 (m parent).children

-- The walks that look for a pid and that count.
unfoldable pub find_pid : ℕ → (ℕ → Process) → ℕ → ℕ → ℕ
find_pid zero m pid cursor = 0
find_pid (suc rounds) m pid cursor =
    let rest = find_pid rounds m pid (m cursor).next in
    if cursor == 0 then 0 else if (m cursor).used && (m cursor).pid == pid then cursor else rest

unfoldable pub process_get_by_pid : Kernel → ℕ → ℕ
process_get_by_pid k pid = find_pid process_max_count k.process_table pid k.process_head

unfoldable pub count_used : ℕ → (ℕ → Process) → ℕ → ℕ → ℕ
count_used zero m cursor count = count
count_used (suc rounds) m cursor count =
    let next = if (m cursor).used then count + 1 else count in
    let rest = count_used rounds m (m cursor).next next in if cursor == 0 then count else rest

unfoldable pub process_count : Kernel → ℕ
process_count k = count_used process_max_count k.process_table k.process_head 0
