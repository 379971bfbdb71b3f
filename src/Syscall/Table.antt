-- ===== src/Syscall/Table.antt =====
-- The table of kernel/src/syscall.c as its callers see it.
use kfs.Base.{
  zero, suc, ℕ, ◌≤◌, ◌<◌, ◌≡◌, ◌≢◌, ◌⊎◌, refl, ap, ◌∙◌, true, false, Option, none, some, List, [],
  ◌∷◌, arith, leb, ltb, get_or, subst, ==_iff, ◌==◌, if◌then◌else◌, get_or, set, length, length-set,
  get_or-set_self, get_or-set_ne, Bool-cases, inl, inr,
}
use kfs.Process.{Kernel}
use kfs.Idt.{Idt}
use kfs.Syscall.{
  SyscallHandler, CallRegisters, return_value, syscall_handler, syscall_init, behind_table,
  syscall_max_handlers, failed, syscall_not_implemented, syscall_get_magic, sys_fork, sys_wait,
  sys_exit, sys_getuid, sys_signal, sys_kill, syscall_table, syscall_register, syscall_dispatch,
}

-- What a call does, by its number.
abbrev pub call_of : ℕ → ℕ → ℕ → SyscallHandler
call_of directories bootstrap number =
    if number == 0
    then syscall_get_magic
    else if number == 1
    then sys_fork directories bootstrap
    else if number == 2
    then sys_wait
    else if number == 3
    then sys_exit
    else if number == 4
    then sys_getuid
    else if number == 5
    then sys_signal
    else if number == 6
    then sys_kill
    else syscall_not_implemented

-- The table after calls of `syscall_register`, first to last; one that is refused changes nothing.
abbrev pub registered : List SyscallHandler → Option (List SyscallHandler) → List SyscallHandler
registered table none = table
registered table (some q) = q

unfoldable pub register_all :
    List (ℕ × Option SyscallHandler) → List SyscallHandler → List SyscallHandler
register_all [] table = table
register_all ((number, handler) ∷ calls) table =
    register_all calls (registered table (syscall_register table number handler))

-- The handler of a number: the last that was registered for it, and else `before`.
unfoldable pub latest : List (ℕ × Option SyscallHandler) → ℕ → SyscallHandler → SyscallHandler
latest [] number before = before
latest ((other, none) ∷ calls) number before = latest calls number before
latest ((other, some handler) ∷ calls) number before =
    latest calls number (if other == number then handler else before)

-- What a number calls, the numbers outside the table among them.
abbrev pub answer_of : ℕ → ℕ → List (ℕ × Option SyscallHandler) → ℕ → SyscallHandler
answer_of directories bootstrap calls number =
    if ltb number 8
    then latest calls number (call_of directories bootstrap number)
    else syscall_not_implemented

-- One registration, as the numbers of the table see it.
registered-set :
    (table : List SyscallHandler) (number other : ℕ) (handler : SyscallHandler)
    → length table ≡ 8
    → other < 8
    → let q = registered table (syscall_register table number (some handler)) in
      (length q ≡ 8)
      × (get_or q other behind_table
          ≡ (if number == other then handler else get_or table other behind_table))
unfolding syscall_register
registered-set table number other handler size small =
    elim (Bool-cases (leb syscall_max_handlers number)) [
      | inl beyond ↦
          let apart : (number == other) ≡ false = ground (arith, beyond, small) in
          rw (beyond, apart) (size, refl)
      | inr inside ↦ elim (Bool-cases (number == other)) [
        | inl here ↦
            let same : number ≡ other = (==_iff number other).0 here in
            rw (inside, here)
              (
                length-set table number handler ∙ size,
                subst (λ n. get_or (set table number handler) n behind_table ≡ handler) same
                    (get_or-set_self table number handler behind_table
                      (ground (arith, inside, size))),
              )
        | inr apart ↦
            rw (inside, apart)
              (
                length-set table number handler ∙ size,
                get_or-set_ne table number other handler behind_table (ground (arith, apart)),
              )
      ]
    ]

register_all_lem :
    (calls : List (ℕ × Option SyscallHandler)) (table : List SyscallHandler) (number : ℕ)
    → length table ≡ 8
    → number < 8
    → get_or (register_all calls table) number behind_table
      ≡ latest calls number (get_or table number behind_table)
unfolding register_all latest syscall_register
register_all_lem [] table number size small = refl
register_all_lem ((other, none) ∷ calls) table number size small =
    register_all_lem calls table number size small
register_all_lem ((other, some handler) ∷ calls) table number size small =
    let q = registered table (syscall_register table other (some handler)) in
    let (size', e) = registered-set table other number handler size small in
    register_all_lem calls q number size' small ∙ ap (latest calls number) e

-- The table of `syscall_init`.
syscall_table_lem :
    (directories bootstrap number : ℕ)
    → number < 8
    → get_or (syscall_table directories bootstrap) number behind_table
      ≡ call_of directories bootstrap number
unfolding syscall_table
syscall_table_lem directories bootstrap zero small = refl
syscall_table_lem directories bootstrap (suc zero) small = refl
syscall_table_lem directories bootstrap (suc (suc zero)) small = refl
syscall_table_lem directories bootstrap (suc (suc (suc zero))) small = refl
syscall_table_lem directories bootstrap (suc (suc (suc (suc zero)))) small = refl
syscall_table_lem directories bootstrap (suc (suc (suc (suc (suc zero))))) small = refl
syscall_table_lem directories bootstrap (suc (suc (suc (suc (suc (suc zero)))))) small = refl
syscall_table_lem directories bootstrap (suc (suc (suc (suc (suc (suc (suc zero))))))) small = refl
syscall_table_lem directories bootstrap (suc (suc (suc (suc (suc (suc (suc (suc n)))))))) small =
    absurd (omega (arith, small))

length-syscall_table :
    (directories bootstrap : ℕ) → length (syscall_table directories bootstrap) ≡ 8
unfolding syscall_table
length-syscall_table directories bootstrap = refl

-- After `syscall_init` and any calls of `syscall_register`, the interrupt calls, for a number in eax
-- below 8, the handler that was registered last for it, NULL aside, and if none was, the magic
-- number, fork, wait, exit, getuid, signal and kill for 0 to 6, and -1 for 7; a number from 8 on
-- answers -1 and changes nothing, whatever was registered. The answer goes to eax, and the other
-- registers stay.
pub syscall_handler_lem :
    {H : Type 0} (directories bootstrap : ℕ) (handler : H) (t : Idt H)
    (calls : List (ℕ × Option SyscallHandler)) (r : CallRegisters) (k : Kernel)
    → syscall_handler (register_all calls (syscall_init directories bootstrap handler t).0) r k
      ≡ return_value r (answer_of directories bootstrap calls r.eax r.ebx r.ecx r.edx r.esi k)
unfolding syscall_handler syscall_dispatch syscall_init syscall_not_implemented
syscall_handler_lem directories bootstrap handler t calls r k =
    let table = register_all calls (syscall_table directories bootstrap) in
    elim (Bool-cases (leb syscall_max_handlers r.eax)) [
      | inl beyond ↦
          let out : ltb r.eax 8 ≡ false = ground (arith, beyond) in
          ap (return_value r) (rw (beyond, out) refl)
      | inr inside ↦
          let small : r.eax < 8 = ground (arith, inside) in
          let within : ltb r.eax 8 ≡ true = ground (arith, small) in
          let found =
            register_all_lem calls (syscall_table directories bootstrap) r.eax
              (length-syscall_table directories bootstrap) small
            ∙ ap (latest calls r.eax) (syscall_table_lem directories bootstrap r.eax small) in
          ap (return_value r) (rw (inside, within) (ap (λ h. h r.ebx r.ecx r.edx r.esi k) found))
    ]

-- `syscall_register` refuses NULL and a number outside the table of 8 calls; else the number calls
-- the handler, and every other number what it called before.
pub syscall_register_lem :
    (table : List SyscallHandler) (number : ℕ) (handler : Option SyscallHandler)
    → length table ≡ syscall_max_handlers
    → ((syscall_register table number handler ≡ none)
        × ((handler ≡ none) ⊎ (syscall_max_handlers ≤ number)))
      ⊎ ((called : SyscallHandler) × (q : List SyscallHandler) × (handler ≡ some called)
          × (syscall_register table number handler ≡ some q)
          × (length q ≡ syscall_max_handlers)
          × ((arg0 arg1 arg2 arg3 : ℕ) (k : Kernel)
              → syscall_dispatch q number arg0 arg1 arg2 arg3 k ≡ called arg0 arg1 arg2 arg3 k)
          × ((other arg0 arg1 arg2 arg3 : ℕ) (k : Kernel)
              → number ≢ other
              → syscall_dispatch q other arg0 arg1 arg2 arg3 k
                ≡ syscall_dispatch table other arg0 arg1 arg2 arg3 k))
unfolding syscall_register syscall_dispatch
syscall_register_lem table number none size = inl (refl, inl refl)
syscall_register_lem table number (some called) size =
    elim (Bool-cases (leb syscall_max_handlers number)) [
      | inl beyond ↦ inl (rw beyond refl, inr (ground (arith, beyond)))
      | inr inside ↦
          let short : number < length table = ground (arith, inside, size) in
          inr (
            called,
            set table number called,
            refl,
            rw inside refl,
            length-set table number called ∙ size,
            λ arg0 arg1 arg2 arg3 k. rw inside (
                ap (λ h. h arg0 arg1 arg2 arg3 k)
                  (get_or-set_self table number called behind_table short)),
            λ other arg0 arg1 arg2 arg3 k ne.
                ap
                  (λ h.
                    if leb syscall_max_handlers other
                    then some (failed, k)
                    else h arg0 arg1 arg2 arg3 k)
                  (get_or-set_ne table number other called behind_table ne),
          )
    ]
