-- ===== src/Syscall/Tests.antt =====
-- The theorems of the system calls at concrete tables.
use kfs.Base.{ℕ, ◌+◌, ◌≡◌, refl, none, some, Option, List, [], ◌∷◌}
use kfs.Idt.{Idt, idt_clear_tables}
use kfs.Process.Fixture.{three}
use kfs.Syscall.{
  SyscallHandler, CallRegisters, syscall_init, syscall_table, syscall_register, syscall_handler,
  syscall_dispatch, return_value, failed,
}
use kfs.Syscall.Table.{answer_of, register_all, syscall_handler_lem}

abbrev double : SyscallHandler
double arg0 arg1 arg2 arg3 k = some (arg0 + arg0, k)

-- 7 and 8 are registered, and NULL for 3.
abbrev three_calls : List (ℕ × Option SyscallHandler)
three_calls = (7, some double) ∷ (8, some double) ∷ (3, none) ∷ []

abbrev call_7 : CallRegisters
call_7 = record { eax = 7; ebx = 21; ecx = 0; edx = 0; esi = 0 }

abbrev tables : List SyscallHandler × Idt ℕ
tables = syscall_init 0x10_0000 0x1000 99 idt_clear_tables

syscall_handler_lem_example :
    syscall_handler (register_all three_calls tables.0) call_7 three
    ≡ return_value call_7 (answer_of 0x10_0000 0x1000 three_calls 7 21 0 0 0 three)
syscall_handler_lem_example =
    syscall_handler_lem 0x10_0000 0x1000 99 idt_clear_tables three_calls call_7 three

-- 7 doubles its argument; 8 is refused, and answers -1.
doubles :
    let table = register_all three_calls tables.0 in
    (syscall_dispatch table 7 21 0 0 0 three ≡ some (42, three))
    × (syscall_dispatch table 8 21 0 0 0 three ≡ some (failed, three))
unfolding syscall_dispatch register_all syscall_register syscall_init syscall_table
doubles = (refl, refl)
