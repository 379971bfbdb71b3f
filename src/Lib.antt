-- ===== src/Lib.antt =====
-- Verification library of the kfs3 kernel, a 32-bit x86 teaching kernel in C.
--
-- The program's parts. The physical memory manager (kernel/src/pmm.c) hands out page frames; paging,
-- the kernel heap, the virtual allocator and the processes take frames from it. The keyboard driver
-- (kernel/src/keyboard.c) turns scancodes into characters for the shell, and posts each one to the
-- kernel's signal queue (kernel/src/signals.c), which the main loop dispatches. The timer
-- (kernel/src/timer.c) counts ticks for the scheduler (kernel/src/process.c), which lets the processes
-- of its table run in turn; they signal one another, send messages, and end and wait through system
-- calls (kernel/src/syscall.c).
--
-- Which file models which part. A file's static variables are the fields of a record, which each
-- function takes and returns; a function of the model has the name of the C function, and a loop is a
-- function of its own, on the rounds left or on fuel.
--   Base      names shared by all, lists by native indices, 32-bit words, the bits of a byte, and
--             the indices of a circular buffer (Base/Circular)
--   Fifo      the abstract bounded queue, and the proof that a circular buffer implements it
--   Ring      the list that the pointers of a linked list spell
--   Pmm       kernel/src/pmm.c; Pmm/Bitmap the frame bitmap and its searches, Pmm/Init pmm_init with
--             the memory map of kernel/include/multiboot.h
--   Signals   kernel/src/signals.c
--   Keyboard  kernel/src/keyboard.c; keyboard_handler works on the keyboard and the signal queue
--   Paging    kernel/src/paging.c, over the physical memory manager and a memory of words;
--             Paging/Space says when a directory is well formed and what the processor sees of it
--   Kmalloc   kernel/src/kmalloc.c: the headers of the heap's blocks in a store. Kmalloc/Chain reads a
--             list of blocks off the store, and the theorems say what happens to that list
--   Gdt       kernel/src/gdt.c
--   Idt       kernel/src/idt.c, where port writes and calls are a list of effects
--   Timer     kernel/src/timer.c
--   Process   kernel/src/process.c. Process/Links the table and its lists, /Memory the address spaces,
--             /Delivery ends and signals, /Sockets, /Lifecycle creation, fork, wait and release,
--             /Scheduler, /Boot; Process/Invariant says what holds of it between the operations.
--             Process/Steps has a constructor for each operation that processes and the timer call,
--             and for each statement of a round of the scheduler that changes the state;
--             Process/Rounds takes a round apart into them
--   Vmalloc   kernel/src/vmalloc.c, over Kmalloc and Paging; a descriptor lies at the address that
--             kmalloc gave, in a store of its own. Vmalloc/Free has the invariant
--   Syscall   kernel/src/syscall.c, over the processes and the handler table of Idt
--   Terminal  the terminal of kernel/src/main.c, with what kernel/src/serial.c sends for it.
--             Terminal/View says what the display shows
--   Shell     the string and number helpers of kernel/src/shell.c, and the reading of a command
--             (Shell/Input), where what arrives is a list of characters
--
-- Numbers. A uint32_t is a number below 2 ^ 32, with the wrap of each operation written out; an int is
-- its 32-bit pattern. The result -1, or a null pointer, of a function that then changes nothing is the
-- answer none.
--
-- Fuel. The walk over the memory map has mmap_length + 1 rounds: an entry takes up at least 4 bytes.
-- The loops over frames have total_frames rounds, since they stop there. The dispatch of signals takes
-- its fuel as an argument: a callback may post signals without end; one round more than there are
-- entries is enough for callbacks that post none. So do the walks along the blocks of the heap, for
-- which one round more than there are blocks is enough, and the walks along the regions of the virtual
-- allocator, which the counter of regions bounds. The walks along the processes have 16 rounds,
-- and one more where the end takes a round: a list holds different slots of a table of 16, which the
-- invariant of Process/Invariant says, so the theorems give their results for every such list. The
-- loop of the scheduler over ticks has max_ticks rounds.
--
-- Not modelled: control registers, the TLB and assembly, which the C code only calls; port I/O outside
-- Idt and Timer; the saving and restoring of the interrupt flag, which makes each queue operation one
-- step here; what a process or a signal handler at an address of its own does, which is a parameter;
-- start-up, the reading of the serial port, the panic screen, the bodies of the
-- demonstration processes, and the shell's commands, which print or call the other parts.
pub mod Base
pub mod Fifo
pub mod Pmm
pub mod Signals
pub mod Keyboard
pub mod Paging
pub mod Kmalloc
pub mod Gdt
pub mod Idt
pub mod Shell
pub mod Timer
pub mod Ring
pub mod Process
pub mod Vmalloc
pub mod Syscall
pub mod Terminal
