-- ===== src/Syscall.antt =====
-- The system calls, kernel/src/syscall.c: a table of handlers, which the interrupt 0x80 reads by the
-- number in eax. A handler takes four words and the kernel's state to a word and the state; `none`
-- is a panic.
pub mod Table
mod Tests
use kfs.Base.{
  ℕ, zero, suc, Bool, true, false, ◌||◌, Option, none, some, List, leb, ◌==◌, if◌then◌else◌, get_or,
  set, replicate,
}
use kfs.Idt.{Idt, idt_register_handler, syscall_vector}
use kfs.Process.{Kernel, Process}
use kfs.Process.Links.{process_get_by_pid}
use kfs.Process.Delivery.{process_exit, send_signal_to_process, kill_process}
use kfs.Process.Lifecycle.{
  Waited, no_child, still_running, reaped, process_wait, process_getuid, fork_process,
}

abbrev pub SyscallHandler : Type 0
SyscallHandler = ℕ → ℕ → ℕ → ℕ → Kernel → Option (ℕ × Kernel)

abbrev pub syscall_max_handlers : ℕ
syscall_max_handlers = 8

-- (uint32_t)-1
abbrev pub failed : ℕ
failed = 0xFFFF_FFFF

unfoldable pub syscall_get_magic : SyscallHandler
syscall_get_magic arg0 arg1 arg2 arg3 k = some (0x4B46_5334, k)

unfoldable pub syscall_not_implemented : SyscallHandler
syscall_not_implemented arg0 arg1 arg2 arg3 k = some (failed, k)

-- The pid of the child, or -1.
abbrev pub fork_result : Option (ℕ × Kernel) → Option (ℕ × Kernel)
fork_result none = none
fork_result (some (child, k)) = some (if child == 0 then failed else (k.process_table child).pid, k)

abbrev pub wait_result : Kernel → Waited → ℕ × Kernel
wait_result k no_child = (failed, k)
wait_result k (still_running q) = (0, q)
wait_result k (reaped exit_code q) = (exit_code, q)

unfoldable pub sys_wait : SyscallHandler
sys_wait pid unused1 unused2 unused3 k =
    let parent = if k.current_process == 0 then k.kernel_process else k.current_process in
    some (wait_result k (process_wait k parent pid))

unfoldable pub sys_exit : SyscallHandler
sys_exit exit_code unused1 unused2 unused3 k =
    some (exit_code, process_exit k k.current_process exit_code)

unfoldable pub sys_getuid : SyscallHandler
sys_getuid unused0 unused1 unused2 unused3 k = some (process_getuid k k.current_process, k)

-- `… == 0 ? 0 : 0xFFFFFFFF`
abbrev pub signal_result : Kernel → Option Kernel → ℕ × Kernel
signal_result k none = (failed, k)
signal_result k (some q) = (0, q)

unfoldable pub sys_signal : SyscallHandler
sys_signal pid signal value unused3 k =
    some (signal_result k (send_signal_to_process k k.current_process pid signal value))

unfoldable pub sys_kill : SyscallHandler
sys_kill pid signal unused2 unused3 k =
    some (signal_result k (kill_process k k.current_process pid signal))

-- `none` is -1.
unfoldable pub syscall_register :
    List SyscallHandler → ℕ → Option SyscallHandler → Option (List SyscallHandler)
syscall_register table number none = none
syscall_register table number (some handler) =
    if leb syscall_max_handlers number then none else some (set table number handler)

-- What a word behind the table is as a handler: a jump to no call's address, which ends as a panic.
abbrev pub behind_table : SyscallHandler
behind_table arg0 arg1 arg2 arg3 k = none

unfoldable pub syscall_dispatch : List SyscallHandler → ℕ → SyscallHandler
syscall_dispatch table number arg0 arg1 arg2 arg3 k =
    let handler = get_or table number behind_table in
    if leb syscall_max_handlers number then some (failed, k) else handler arg0 arg1 arg2 arg3 k

-- The registers that a call reads and writes.
pub record CallRegisters : Type 0 where
  pub eax : ℕ
  pub ebx : ℕ
  pub ecx : ℕ
  pub edx : ℕ
  pub esi : ℕ

abbrev pub return_value : CallRegisters → Option (ℕ × Kernel) → Option (CallRegisters × Kernel)
return_value r none = none
return_value r (some (value, k)) = some (record r { eax = value }, k)

unfoldable pub syscall_handler :
    List SyscallHandler → CallRegisters → Kernel → Option (CallRegisters × Kernel)
unfolding syscall_dispatch
syscall_handler table r k = return_value r (syscall_dispatch table r.eax r.ebx r.ecx r.edx r.esi k)

-- The addresses of the directories and of process_bootstrap, which a new process needs.
module _ (process_page_directories bootstrap : ℕ) where
  unfoldable pub sys_fork : SyscallHandler
  sys_fork pid_hint unused1 unused2 unused3 k =
      let source = if pid_hint == 0 then k.current_process else process_get_by_pid k pid_hint in
      fork_result (fork_process process_page_directories bootstrap k source)

  -- The loop fills the table, whatever it held, and the calls take their places; `handler` stands
  -- for the address of syscall_handler.
  unfoldable pub syscall_table : List SyscallHandler
  syscall_table =
      let empty = replicate {A = SyscallHandler} syscall_max_handlers syscall_not_implemented in
      let with_magic = set empty 0 syscall_get_magic in
      let with_fork = set with_magic 1 sys_fork in
      let with_wait = set with_fork 2 sys_wait in
      let with_exit = set with_wait 3 sys_exit in
      let with_getuid = set with_exit 4 sys_getuid in
      let with_signal = set with_getuid 5 sys_signal in set with_signal 6 sys_kill

  unfoldable pub syscall_init : {H : Type 0} → H → Idt H → List SyscallHandler × Idt H
  unfolding syscall_table
  syscall_init handler t = (syscall_table, idt_register_handler t syscall_vector (some handler))
