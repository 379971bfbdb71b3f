-- ===== src/Process/Boot.antt =====
-- The start of the process table and the demonstration processes, kernel/src/process.c.
use kfs.Base.{
  ℕ, ◌+◌, ◌*◌, ◌||◌, ◌&&◌, true, Option, none, some, ltb, leb, ◌==◌, if◌then◌else◌, add32,
}
use kfs.Process.{
  Process, Kernel, thread, process_max_count, no_context, no_memory, no_process, modify,
}
use kfs.Process.Lifecycle.{process_create_owned, process_release}

-- A slot of the table as `process_init` leaves it.
abbrev pub empty_slot : Process
empty_slot = record no_process { memory = record no_memory { page_size = 4096 } }

abbrev pub kernel_slot : ℕ → ℕ → Process
kernel_slot pid directory = record empty_slot {
  used = true;
  pid = pid;
  status = thread;
  rights = 0xFFFF_FFFF;
  memory = record empty_slot.memory { process_page_directory = directory };
}

abbrev pub boot_table : (ℕ → Process) → ℕ → ℕ → ℕ → Process
boot_table m pid directory a =
    if a == 0 || ltb process_max_count a
    then m a
    else if a == 1
    then kernel_slot pid directory
    else empty_slot

-- `process_memset(process_page_directories, 0, sizeof(process_page_directories))`: 16 pages.
abbrev pub clear_directories : (ℕ → ℕ) → ℕ → ℕ → ℕ
clear_directories memory base a =
    if leb base a && ltb a (base + 4096 * process_max_count) then 0 else memory a

-- The first argument is the address of the directories.
unfoldable pub process_init : ℕ → Kernel → Kernel
process_init process_page_directories k = record k {
  paging = record k.paging { memory = clear_directories k.paging.memory process_page_directories };
  process_table = boot_table k.process_table k.next_pid k.paging.current_directory;
  next_pid = add32 k.next_pid 1;
  kernel_process = 1;
  process_head = 1;
  current_process = 1;
  scheduler_cursor = 1;
  scheduler_enabled = true;
  pending_scheduler_ticks = 0;
  total_scheduler_ticks = 0;
  total_context_switches = 0;
  scheduler_context = no_context;
}

-- The addresses of the directories, of process_bootstrap and of the demonstrations.
module _ (process_page_directories bootstrap demo_counter demo_receiver demo_sender : ℕ) where
  abbrev create : Kernel → ℕ → ℕ → Option (ℕ × Kernel)
  create k owner function =
      process_create_owned process_page_directories bootstrap k owner function 4096

  abbrev set_arguments : Kernel → ℕ → ℕ → ℕ → Kernel
  set_arguments k process arg0 arg1 =
      modify k process (λ p. record p { runtime_arg0 = arg0; runtime_arg1 = arg1 })

  abbrev spawned_counter : ℕ → ℕ → Option (ℕ × Kernel) → Option (ℕ × Kernel)
  spawned_counter seed limit none = none
  spawned_counter seed limit (some (process, k)) =
      if process == 0 then some (0, k) else some (process, set_arguments k process seed limit)

  unfoldable pub process_spawn_demo_counter : Kernel → ℕ → ℕ → ℕ → Option (ℕ × Kernel)
  process_spawn_demo_counter k owner seed limit =
      spawned_counter seed limit (create k owner demo_counter)

  -- The pids of the sender and of the receiver; the inner `none` is -1.
  abbrev spawned_sender : ℕ → ℕ → Option (ℕ × Kernel) → Option (Option (ℕ × ℕ) × Kernel)
  spawned_sender value receiver none = none
  spawned_sender value receiver (some (sender, k)) =
      let to = (k.process_table receiver).pid in
      if sender == 0
      then some (none, process_release k receiver)
      else some (some ((k.process_table sender).pid, to), set_arguments k sender to value)

  abbrev spawned_receiver : ℕ → ℕ → Option (ℕ × Kernel) → Option (Option (ℕ × ℕ) × Kernel)
  spawned_receiver owner value none = none
  spawned_receiver owner value (some (receiver, k)) =
      if receiver == 0
      then some (none, k)
      else spawned_sender value receiver (create k owner demo_sender)

  unfoldable pub process_spawn_demo_socket_pair : Kernel → ℕ → ℕ → Option (Option (ℕ × ℕ) × Kernel)
  process_spawn_demo_socket_pair k owner value =
      spawned_receiver owner value (create k owner demo_receiver)
