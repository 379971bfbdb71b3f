-- ===== src/Process/Tests.antt =====
-- The theorems of the process code at concrete tables.
use mathlib.Core.Option
use kfs.Base.{
  ℕ, ◌≡◌, ◌≢◌, refl, sym, subst, false, not, ◌&&◌, Option, none, some, List, [], ◌∷◌, ◌++◌, arith,
  ◌==◌, if◌then◌else◌, length,
}
use kfs.Base.Circular.{window}
use kfs.Fifo
use kfs.Process.{Kernel}
use kfs.Process.Links.{
  find_pid, unlink_sibling, unlink_next, process_unlink_child, process_get_by_pid, process_count,
  process_unlink_global,
}
use kfs.Process.Memory.{process_release_memory, release_pages, process_memory_alloc}
use kfs.Process.Delivery.{process_exit, send_signal_to_process, deliver_process_signal}
use kfs.Process.Sockets.{socket_send, socket_recv}
use kfs.Process.Lifecycle.{process_release, process_create_internal}
use kfs.Process.Scheduler.{
  find_runnable, pick_next_process, scheduler_tick, schedule_next_process, deliver_all,
  process_deliver_all_pending_signals, work_off, run_pending, scheduler_run_pending,
}
use kfs.Ring.{Linked, remove}
use kfs.Process.Unlink.{next_of, apart, process_unlink_global_lem}
use kfs.Process.Queues.{HasQueue, HasSocket}
use kfs.Process.Messages.{Sent, inbox, signals_of, socket_send_lem, socket_recv_lem}
use kfs.Process.Pick.{first_runnable, pick_next_process_lem}
use kfs.Process.Boot.{process_init}
use kfs.Process.Steps.{Reachable, boots, steps, ticks}
use kfs.Process.Keep.{Picked}
use kfs.Process.Reach.{Reachable-IsRing}
use kfs.Process.Rounds.{scheduler_run_pending-Reachable}
use kfs.Process.Turns.{OnPair}
use kfs.Process.Find.{first_with_pid, used_count, process_get_by_pid_lem}
use kfs.Process.Wait.{after_exit, process_exit_lem}
use kfs.Process.Collect.{Collected, process_wait_lem}
use kfs.Process.Rights.{may_signal, send_signal_to_process_lem}
use kfs.Process.Break.{memory_of}
use kfs.Process.Deliver.{served, IsTarget, Delivered}
use kfs.Process.Fixture.{three_table, three, ring, ring-Linked, ring-Distinct, three-IsRing}
use kfs.Process.Invariant.{IsRing}
use kfs.Process.Creation.{Created, process_create_internal-IsRing}
use kfs.Process.Serve.{deliver_process_signal_lem}

process_unlink_global_lem_example :
    let r = process_unlink_global (1, three_table) 2 in
    Linked (next_of r.1) r.0 (remove 2 ring) × ((a : ℕ) → apart (r.1 a) ≡ apart (three_table a))
process_unlink_global_lem_example =
    process_unlink_global_lem ring 1 three_table 2 (omega arith) ring-Linked ring-Distinct

process_get_by_pid_lem_example :
    ((pid : ℕ) → process_get_by_pid three pid ≡ first_with_pid three_table pid ring)
    × (process_count three ≡ used_count three_table ring)
process_get_by_pid_lem_example = process_get_by_pid_lem three ring ring-Linked (omega arith)

child_found : process_get_by_pid three 3 ≡ 3
unfolding process_get_by_pid find_pid
child_found = refl

parent_found : process_get_by_pid three 2 ≡ 2
unfolding process_get_by_pid find_pid
parent_found = refl

-- The cursor is on the parent, so the child is next.
pick_next_process_lem_example :
    pick_next_process three ≡ first_runnable three (3 ∷ [] ++ 1 ∷ [] ++ 2 ∷ [])
pick_next_process_lem_example =
    pick_next_process_lem three (1 ∷ []) (3 ∷ []) refl ring-Linked ring-Distinct (omega arith)

abbrev ignored : ℕ → ℕ → ℕ → ℕ → Kernel → Kernel
ignored handler process signal value k = k

abbrev idle : ℕ → Kernel → Kernel
idle process k = k

-- A tick after the start, and the round of the scheduler that works it off.
abbrev ticked : Kernel
ticked = scheduler_tick (process_init 0x10_0000 three)

abbrev state_of : Option (ℕ × Kernel) → Kernel
state_of none = ticked
state_of (some (executed, k)) = k

abbrev after_round : Kernel
after_round = state_of (scheduler_run_pending ignored idle 16 1 ticked)

round_done : (after_round.pending_scheduler_ticks ≡ 0) × (after_round.total_scheduler_ticks ≡ 1)
unfolding scheduler_run_pending run_pending work_off process_deliver_all_pending_signals deliver_all
    schedule_next_process pick_next_process find_runnable scheduler_tick process_init
round_done = (refl, refl)

after_round-Reachable : Reachable 0x10_0000 0x1000 after_round
unfolding scheduler_run_pending run_pending work_off process_deliver_all_pending_signals deliver_all
    schedule_next_process pick_next_process find_runnable scheduler_tick process_init OnPair
after_round-Reachable =
    scheduler_run_pending-Reachable 0x10_0000 0x1000 ignored idle (λ a p s v k r. r) (λ p k r. r) 16
      1 ticked (steps (boots three) (ticks refl))

Reachable-IsRing_example : (xs : List ℕ) × IsRing after_round xs × Picked after_round xs
Reachable-IsRing_example = Reachable-IsRing 0x10_0000 0x1000 after_round after_round-Reachable

child_is_next : pick_next_process three ≡ 3
unfolding pick_next_process find_runnable
child_is_next = refl

process_exit_lem_example : (process_exit three 3 7).process_table 2 ≡ after_exit three 3 7 2
process_exit_lem_example =
    process_exit_lem three 3 7 2 (omega arith) (omega arith) refl (omega arith)

process_wait_lem_example : Collected three 2 3 3 7
process_wait_lem_example =
    process_wait_lem three 2 3 3 7 child_found (omega arith) (omega arith) (omega arith)
      (omega arith) (omega arith) refl refl

parent_queue : HasQueue (three_table (process_get_by_pid three 2))
parent_queue =
    subst (λ t. HasQueue (three_table t)) (sym parent_found)
      (record { size = refl; head = omega arith; tail = omega arith })

parent_socket : HasSocket (three_table (process_get_by_pid three 2)).process_socket
parent_socket =
    subst (λ t. HasSocket (three_table t).process_socket) (sym parent_found)
      (record { size = refl; head = omega arith; tail = omega arith })

parent_exists : process_get_by_pid three 2 ≢ 0
parent_exists = rw parent_found (omega arith)

send_signal_to_process_lem_example :
    Option.map
      (λ q. signals_of q (process_get_by_pid three 2))
      (send_signal_to_process three 3 2 16 9)
    ≡ (if not (process_get_by_pid three 2 == 0) && may_signal three 3 (process_get_by_pid three 2)
        then Fifo.push 15
            (signals_of three (process_get_by_pid three 2))
            (record { signal = 16; value = 9 })
        else none)
send_signal_to_process_lem_example = send_signal_to_process_lem three 3 2 16 9 parent_queue

socket_send_lem_example : Sent three (process_get_by_pid three 2) 42 (socket_send three 2 42)
socket_send_lem_example = socket_send_lem three 2 42 parent_exists parent_queue parent_socket

socket_recv_lem_example :
    Option.map (λ r. (r.0, inbox r.1 2)) (socket_recv three 2) ≡ Fifo.pop (inbox three 2)
socket_recv_lem_example =
    socket_recv_lem three 2 (omega arith)
      (record { size = refl; head = omega arith; tail = omega arith })

-- A size that wraps moves the break below the page: 0x2010 + 0xFFFFF000 is 0x1010.
break_wraps :
    Option.map (λ q. (memory_of q 2).heap_break) (process_memory_alloc three 2 0xFFFF_F000)
    ≡ some 0x1010
unfolding process_memory_alloc
break_wraps = refl

parent-IsTarget : IsTarget three 2
parent-IsTarget = record {
  exists = omega arith;
  user = omega arith;
  queue = record { size = refl; head = omega arith; tail = omega arith };
  alive = refl;
  own_parent = omega arith;
  handler = refl;
}

deliver_process_signal_lem_example :
    (k : Kernel) × (deliver_process_signal (λ h p s v k. k) 3 three 2
      ≡ some (length (served (signals_of three 2)), k))
    × Delivered 2 (signals_of three 2) k
unfolding window
deliver_process_signal_lem_example =
    deliver_process_signal_lem (λ h p s v k. k) 2 3 three parent-IsTarget (omega arith)

process_create_internal-IsRing_example :
    Created ring (process_create_internal 0x10_0000 0x1000 three 1 7 0 0x8000 4096)
process_create_internal-IsRing_example =
    process_create_internal-IsRing 0x10_0000 0x1000 three ring 1 7 0 0x8000 4096 three-IsRing

-- The children of a process that is released keep the pointer to its slot.
orphan_keeps_parent :
    let k = process_release three 2 in
    ((k.process_table 3).parent ≡ 2) × ((k.process_table 2).used ≡ false)
unfolding process_release process_unlink_child unlink_sibling process_unlink_global unlink_next
    process_release_memory release_pages
orphan_keeps_parent = (refl, refl)
