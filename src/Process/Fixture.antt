-- ===== src/Process/Fixture.antt =====
-- A process table for the tests: the kernel's process, a process, and its child.
use kfs.Base.{ℕ, refl, true, List, [], ◌∷◌, arith, ◌==◌, if◌then◌else◌}
use kfs.Paging.{Paging}
use kfs.Process.{Process, default_handler, Kernel, ready, thread, no_process, no_context, no_signal}
use kfs.Ring.{Linked, Distinct}
use kfs.Ring.Members.{member}
use kfs.Process.Unlink.{next_of}
use kfs.Process.Invariant.{IsRing}

abbrev pub no_frames : Paging
no_frames = record {
  pmm = record { frame_bitmap = []; total_memory = 0; total_frames = 0; used_frames = 0 };
  memory = λ a. 0;
  current_directory = 0;
  kernel_directory = 0;
}

-- The kernel's process, a parent of user 1 that has two signals, and its child.
abbrev pub kernel_record : Process
kernel_record = record no_process { pid = 1; status = thread; next = 2; used = true }

abbrev pub parent_record : Process
parent_record = record no_process {
  pid = 2;
  status = ready;
  owner = 1;
  parent = 1;
  children = 3;
  next = 3;
  entry = 0x8000;
  signal_handler = default_handler;
  pending_process_signals =
      record { signal = 16; value = 5 }
      ∷ record { signal = 15; value = 0 }
      ∷ no_signal
      ∷ no_signal
      ∷ no_signal
      ∷ no_signal
      ∷ no_signal
      ∷ no_signal
      ∷ no_signal
      ∷ no_signal
      ∷ no_signal
      ∷ no_signal
      ∷ no_signal
      ∷ no_signal
      ∷ no_signal
      ∷ no_signal
      ∷ [];
  signal_tail = 2;
  memory = record no_process.memory { heap_start = 0x2000; heap_break = 0x2010; heap_end = 0x3000 };
  used = true;
}

abbrev pub child_record : Process
child_record = record no_process {
  pid = 3;
  status = ready;
  owner = 1;
  parent = 2;
  entry = 0x9000;
  signal_handler = default_handler;
  used = true;
}

abbrev pub three_table : ℕ → Process
three_table a =
    if a == 1
    then kernel_record
    else if a == 2
    then parent_record
    else if a == 3
    then child_record
    else no_process

abbrev pub three : Kernel
three = record {
  paging = no_frames;
  process_table = three_table;
  scheduler_context = no_context;
  process_head = 1;
  current_process = 1;
  kernel_process = 1;
  scheduler_cursor = 2;
  next_pid = 4;
  pending_scheduler_ticks = 0;
  total_scheduler_ticks = 0;
  total_context_switches = 0;
  scheduler_enabled = true;
}

abbrev pub ring : List ℕ
ring = 1 ∷ 2 ∷ 3 ∷ []

pub ring-Linked : Linked (next_of three_table) 1 ring
unfolding Linked
ring-Linked = (refl, omega arith, (refl, omega arith, (refl, omega arith, refl)))

pub ring-Distinct : Distinct ring
unfolding Distinct
ring-Distinct = ((omega arith, (omega arith, tt)), ((omega arith, tt), (tt, tt)))

pub three-IsRing : IsRing three ring
unfolding member
three-IsRing = record {
  links = ring-Linked;
  different = ring-Distinct;
  inside =
      ((omega arith, omega arith), ((omega arith, omega arith), ((omega arith, omega arith), tt)));
  used = (refl, (refl, (refl, tt)));
  head = refl;
  cursor = refl;
}
