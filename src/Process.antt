-- ===== src/Process.antt =====
-- The processes, kernel/src/process.c and kernel/include/process.h: their records, and what works
-- on one record. A pointer to `process_table[slot]` is `slot + 1`, 0 for NULL; an `int` is its
-- 32-bit pattern.
pub mod Links
pub mod Unlink
pub mod Append
pub mod Memory
pub mod Delivery
pub mod Sockets
pub mod Lifecycle
pub mod Scheduler
pub mod Boot
pub mod Queues
pub mod Messages
pub mod Pick
pub mod Table
pub mod Find
pub mod Wait
pub mod Protocol
pub mod Collect
pub mod Rights
pub mod Break
pub mod Same
pub mod MapSame
pub mod Invariant
pub mod Moves
pub mod Turns
pub mod Created
pub mod Join
pub mod Creation
pub mod Chosen
pub mod Steps
pub mod Fields
pub mod Keep
pub mod Reach
pub mod Rounds
pub mod Deliver
pub mod Serve
pub mod Fixture
mod Tests
use kfs.Base.{
  ℕ, zero, suc, ◌+◌, ◌-◌, ◌*◌, ◌/◌, Bool, true, false, not, ◌&&◌, ◌||◌, List, ◌==◌, leb,
  if◌then◌else◌, replicate, add32, sub32,
}
use kfs.Paging.{Paging}

pub data ProcessStatus : Type 0 where
  ready : ProcessStatus
  run : ProcessStatus
  waiting : ProcessStatus
  zombie : ProcessStatus
  thread : ProcessStatus

pub record PendingProcessSignal : Type 0 where
  pub signal : ℕ
  pub value : ℕ

pub record ProcessSocket : Type 0 where
  pub values : List ℕ
  pub head : ℕ
  pub tail : ℕ

pub record ProcessContext : Type 0 where
  pub ebx : ℕ
  pub esi : ℕ
  pub edi : ℕ
  pub ebp : ℕ
  pub esp : ℕ
  pub eip : ℕ

pub record ProcessMemory : Type 0 where
  pub process_page_directory : ℕ
  pub page_size : ℕ
  pub virtual_base : ℕ
  pub virtual_page : ℕ
  pub process_page : ℕ
  pub data_start : ℕ
  pub data_end : ℕ
  pub bss_start : ℕ
  pub bss_end : ℕ
  pub heap_start : ℕ
  pub heap_break : ℕ
  pub heap_end : ℕ
  pub stack_base : ℕ
  pub stack_top : ℕ
  pub physical_page : ℕ
  pub data_page : ℕ
  pub bss_page : ℕ
  pub heap_page : ℕ
  pub stack_page : ℕ
  pub process_page_table : ℕ
  pub code_size : ℕ

-- A `process_signal_handler_t`: NULL, `process_default_signal_handler`, or another address.
pub data SignalHandler : Type 0 where
  no_handler : SignalHandler
  default_handler : SignalHandler
  handler_at : (address : ℕ) → SignalHandler

pub record Process : Type 0 where
  pub pid : ℕ
  pub status : ProcessStatus
  pub owner : ℕ
  pub rights : ℕ
  pub parent : ℕ
  pub children : ℕ
  pub next_sibling : ℕ
  pub next : ℕ
  pub memory : ProcessMemory
  pub pending_process_signals : List PendingProcessSignal
  pub signal_head : ℕ
  pub signal_tail : ℕ
  pub process_socket : ProcessSocket
  pub entry : ℕ
  pub signal_handler : SignalHandler
  pub context : ProcessContext
  pub cpu_ticks : ℕ
  pub run_count : ℕ
  pub switch_count : ℕ
  pub last_signal : ℕ
  pub last_signal_value : ℕ
  pub last_socket_value : ℕ
  pub runtime_state : ℕ
  pub runtime_value : ℕ
  pub runtime_arg0 : ℕ
  pub runtime_arg1 : ℕ
  pub exit_code : ℕ
  pub wait_target_pid : ℕ
  pub used : Bool

-- The static variables, with the memory and the paging that the processes share.
pub record Kernel : Type 0 where
  pub paging : Paging
  pub process_table : ℕ → Process
  pub scheduler_context : ProcessContext
  pub process_head : ℕ
  pub current_process : ℕ
  pub kernel_process : ℕ
  pub scheduler_cursor : ℕ
  pub next_pid : ℕ
  pub pending_scheduler_ticks : ℕ
  pub total_scheduler_ticks : ℕ
  pub total_context_switches : ℕ
  pub scheduler_enabled : Bool

abbrev pub process_max_count : ℕ
process_max_count = 16

abbrev pub process_signal_queue_capacity : ℕ
process_signal_queue_capacity = 16

abbrev pub process_socket_capacity : ℕ
process_socket_capacity = 8

-- What `process_memset(…, 0, …)` leaves.
abbrev pub no_signal : PendingProcessSignal
no_signal = record { signal = 0; value = 0 }

abbrev pub no_context : ProcessContext
no_context = record { ebx = 0; esi = 0; edi = 0; ebp = 0; esp = 0; eip = 0 }

abbrev pub no_memory : ProcessMemory
no_memory = record {
  process_page_directory = 0;
  page_size = 0;
  virtual_base = 0;
  virtual_page = 0;
  process_page = 0;
  data_start = 0;
  data_end = 0;
  bss_start = 0;
  bss_end = 0;
  heap_start = 0;
  heap_break = 0;
  heap_end = 0;
  stack_base = 0;
  stack_top = 0;
  physical_page = 0;
  data_page = 0;
  bss_page = 0;
  heap_page = 0;
  stack_page = 0;
  process_page_table = 0;
  code_size = 0;
}

abbrev pub no_process : Process
no_process = record {
  pid = 0;
  status = ready;
  owner = 0;
  rights = 0;
  parent = 0;
  children = 0;
  next_sibling = 0;
  next = 0;
  memory = no_memory;
  pending_process_signals = replicate process_signal_queue_capacity no_signal;
  signal_head = 0;
  signal_tail = 0;
  process_socket = record {
    values = replicate {A = ℕ} process_socket_capacity 0;
    head = 0;
    tail = 0;
  };
  entry = 0;
  signal_handler = no_handler;
  context = no_context;
  cpu_ticks = 0;
  run_count = 0;
  switch_count = 0;
  last_signal = 0;
  last_signal_value = 0;
  last_socket_value = 0;
  runtime_state = 0;
  runtime_value = 0;
  runtime_arg0 = 0;
  runtime_arg1 = 0;
  exit_code = 0;
  wait_target_pid = 0;
  used = false;
}

abbrev pub is_zombie : ProcessStatus → Bool
is_zombie zombie = true
is_zombie _ = false

abbrev pub is_waiting : ProcessStatus → Bool
is_waiting waiting = true
is_waiting _ = false

abbrev pub is_run : ProcessStatus → Bool
is_run run = true
is_run _ = false

-- A record of the table is written.
abbrev pub update : (ℕ → Process) → ℕ → Process → ℕ → Process
update m at p a = if a == at then p else m a

-- A record of the table is changed.
abbrev pub modify : Kernel → ℕ → (Process → Process) → Kernel
modify k process f = record k {
  process_table = update k.process_table process (f (k.process_table process));
}
