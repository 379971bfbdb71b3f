-- ===== src/Process/Lifecycle.antt =====
-- Creation, waiting and release of processes, kernel/src/process.c. A function pointer is its
-- address; `bootstrap` stands for the address of process_bootstrap. `none` is a panic of the
-- paging.
use kfs.Base.{
  ℕ, ◌+◌, ◌-◌, ◌*◌, ◌/◌, Bool, true, false, not, ◌&&◌, ◌||◌, Option, none, some, ltb, leb, ◌==◌,
  if◌then◌else◌, add32, sub32,
}
use kfs.Paging.{Paging, write}
use kfs.Process.{
  Process, ProcessMemory, ProcessContext, default_handler, Kernel, ready, waiting, thread,
  no_context, no_process, is_waiting, is_zombie, update, modify,
}
use kfs.Process.Links.{
  process_allocate_slot, process_link_global, process_unlink_global, process_link_child,
  process_unlink_child, process_get_by_pid,
}
use kfs.Process.Memory.{process_release_memory, process_memory_map}
use kfs.Process.Sockets.{socket_create}

unfoldable pub process_release : Kernel → ℕ → Kernel
process_release k process =
    let cursor = if k.scheduler_cursor == process then k.process_head else k.scheduler_cursor in
    let released = process_release_memory (record k { scheduler_cursor = cursor }) process in
    let orphaned = process_unlink_child released.process_table process in
    let (head, table) = process_unlink_global (released.process_head, orphaned) process in
    if process == 0 || process == k.kernel_process
    then k
    else record released { process_head = head; process_table = update table process no_process }

-- `(process->memory.stack_top - 16U) & ~0x0FU`
abbrev pub initial_stack : ℕ → ℕ
initial_stack stack_top = sub32 stack_top 16 / 16 * 16

abbrev pub initial_context : ℕ → ℕ → ProcessContext
initial_context bootstrap stack_top = record no_context {
  esp = initial_stack stack_top;
  ebp = initial_stack stack_top;
  eip = bootstrap;
}

-- The fields that `process_create_internal` fills before the calls that can fail.
abbrev pub new_process : ℕ → ℕ → ℕ → ℕ → ℕ → Process → Process
new_process pid owner requested_base function size p = record p {
  pid = pid;
  status = ready;
  owner = owner;
  rights = 0xFFFF_FFFF;
  entry = function;
  signal_handler = default_handler;
  memory = record p.memory { virtual_base = requested_base; code_size = size };
}

-- `*((uint32_t *)page) = 0`, unless there is no page.
abbrev pub clear_word : Paging → ℕ → Paging
clear_word p page = if page == 0 then p else record p { memory = write p.memory page 0 }

abbrev pub clear_words : Kernel → ℕ → Kernel
clear_words k process =
    let m = (k.process_table process).memory in
    record k { paging = clear_word (clear_word k.paging m.data_page) m.bss_page }

-- The two lists get the new process.
unfoldable pub link_process : Kernel → ℕ → ℕ → Kernel
link_process k parent process =
    let children = process_link_child k.process_table parent process in
    let (head, table) = process_link_global (k.process_head, children) process in
    record k { process_head = head; process_table = table }

module _ (process_page_directories bootstrap : ℕ) where
  unfoldable pub process_initialize_context : Kernel → ℕ → Kernel
  process_initialize_context k process =
      modify k process (λ p. record p { context = initial_context bootstrap p.memory.stack_top })

  -- What follows `process_memory_map`: the new process, 0 for NULL, and the state.
  unfoldable pub complete_process : ℕ → ℕ → Option (Bool × Kernel) → Option (ℕ × Kernel)
  unfolding process_initialize_context link_process process_release
  complete_process parent process none = none
  complete_process parent process (some (false, k)) = some (0, process_release k process)
  complete_process parent process (some (true, k)) =
      let linked = link_process (process_initialize_context k process) parent process in
      some (process, clear_words linked process)

  -- `socket_create(process) != 0 || process_memory_map(process) != 0`, the other way round.
  unfoldable pub set_up_memory : Kernel → ℕ → Option (Bool × Kernel)
  set_up_memory k process = elim (socket_create k process) [
    | none ↦ some (false, k)
    | some k' ↦ process_memory_map process_page_directories k' process
  ]

  unfoldable pub process_create_internal : Kernel → ℕ → ℕ → ℕ → ℕ → ℕ → Option (ℕ × Kernel)
  unfolding complete_process set_up_memory
  process_create_internal k parent owner requested_base function size =
      let (process, table) = process_allocate_slot k.process_table in
      let numbered = record k { process_table = table; next_pid = add32 k.next_pid 1 } in
      let filled =
        modify numbered process (new_process k.next_pid owner requested_base function size) in
      if process == 0
      then some (0, k)
      else complete_process parent process (set_up_memory filled process)

  abbrev pub creator : Kernel → ℕ
  creator k = if k.current_process == 0 then k.kernel_process else k.current_process

  unfoldable pub process_create_owned : Kernel → ℕ → ℕ → ℕ → Option (ℕ × Kernel)
  process_create_owned k owner function size =
      process_create_internal k (creator k) owner 0 function size

  unfoldable pub exec_fn : Kernel → ℕ → ℕ → ℕ → Option (ℕ × Kernel)
  exec_fn k addr function size =
      let current = k.current_process in
      let owner = if current == 0 then 0 else (k.process_table current).owner in
      process_create_internal k (creator k) owner addr function size

  -- `process_memcpy` of a page.
  abbrev copy_page : (ℕ → ℕ) → ℕ → ℕ → ℕ → ℕ
  copy_page memory destination source a =
      if leb destination a && ltb a (destination + 4096)
      then memory (source + (a - destination))
      else memory a

  abbrev pub copy_fields : Process → Process → Process
  copy_fields source child = record child {
    rights = source.rights;
    signal_handler = source.signal_handler;
    runtime_state = source.runtime_state;
    runtime_value = source.runtime_value;
    runtime_arg0 = source.runtime_arg0;
    runtime_arg1 = source.runtime_arg1;
    last_signal = source.last_signal;
    last_signal_value = source.last_signal_value;
    memory = record child.memory {
      heap_break =
          add32 child.memory.heap_start (sub32 source.memory.heap_break source.memory.heap_start);
    };
    status = ready;
  }

  abbrev pub copy_pages : (ℕ → ℕ) → ProcessMemory → ProcessMemory → ℕ → ℕ
  copy_pages memory source child =
      let code = copy_page memory child.data_page source.data_page in
      let bss = copy_page code child.bss_page source.bss_page in
      copy_page bss child.heap_page source.heap_page

  unfoldable pub copy_process : ℕ → Option (ℕ × Kernel) → Option (ℕ × Kernel)
  copy_process source none = none
  copy_process source (some (child, k)) =
      let p = k.process_table source in
      let copied = copy_pages k.paging.memory p.memory (k.process_table child).memory in
      let filled = record k { paging = record k.paging { memory = copied } } in
      if child == 0 then some (0, k) else some (child, modify filled child (copy_fields p))

  -- `0` is NULL.
  unfoldable pub fork_process : Kernel → ℕ → Option (ℕ × Kernel)
  unfolding process_create_internal copy_process
  fork_process k source =
      let p = k.process_table source in
      if source == 0 || source == k.kernel_process || p.entry == 0
      then some (0, k)
      else copy_process source
          (process_create_internal k source p.owner 0 p.entry p.memory.code_size)

-- The three results of `process_wait`.
pub data Waited : Type 0 where
  no_child : Waited
  still_running : (k : Kernel) → Waited
  reaped : (exit_code : ℕ) → (k : Kernel) → Waited

abbrev pub begin_wait : Kernel → ℕ → ℕ → Kernel
begin_wait k parent pid =
    let told = modify k parent (λ p. record p { wait_target_pid = pid }) in
    if parent == 0
    then k
    else if parent == k.kernel_process
    then told
    else modify told parent (λ p. record p { status = waiting })

abbrev pub stop_waiting : Kernel → ℕ → Kernel
stop_waiting k parent =
    if not (parent == 0) && is_waiting (k.process_table parent).status
    then modify k parent (λ p. record p { status = thread })
    else k

unfoldable pub process_wait : Kernel → ℕ → ℕ → Waited
unfolding process_release
process_wait k parent pid =
    let child = process_get_by_pid k pid in
    let c = k.process_table child in
    if child == 0 || (not (parent == k.kernel_process) && not (c.parent == parent))
    then no_child
    else if is_zombie c.status
    then reaped c.exit_code (process_release (stop_waiting k parent) child)
    else still_running (begin_wait k parent pid)

unfoldable pub process_getuid : Kernel → ℕ → ℕ
process_getuid k process = if process == 0 then 0 else (k.process_table process).owner
