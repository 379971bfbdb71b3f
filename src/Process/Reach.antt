-- ===== src/Process/Reach.antt =====
-- What holds in every state of kernel/src/process.c that its operations reach.
use kfs.Base.{ℕ, ◌≡◌, refl, sym, subst, Bool, Option, some, List}
use kfs.Process.{Kernel}
use kfs.Process.Memory.{process_memory_alloc, process_memory_map}
use kfs.Process.Delivery.{
  process_exit, process_signal, queue_process_signal, process_default_signal_handler,
  without_signal,
}
use kfs.Process.Sockets.{socket_create, socket_send, socket_recv}
use kfs.Process.Lifecycle.{fork_process}
use kfs.Process.Scheduler.{
  process_yield, begin_turn, end_turn, scheduler_tick, give_back, count_down,
  process_switch_to_kernel_space,
}
use kfs.Process.Invariant.{IsRing}
use kfs.Process.MapSame.{Same, After, repaged, process_memory_map-Same}
use kfs.Process.Creation.{Created, process_create_internal-IsRing}
use kfs.Process.Moves.{
  process_exit-Same, queue_process_signal-Same, socket_send-Same, process_yield-Same,
}
use kfs.Process.Turns.{
  default_handler-Same, socket_recv-Same, process_memory_alloc-Same, begin_turn-Same, end_turn-Same,
  scheduler_tick-Same,
}
use kfs.Process.Fields.{
  process_signal-Same, socket_create-Same, without_signal-Same, worked-Same,
  process_switch_to_kernel_space-Same,
}
use kfs.Process.Steps.{
  worked, Step, creates, forks, releases, waits, ends, handles, signals, takes, defaults, opens,
  sends, receives, maps, grows, writes, works, yields, counts, picks, begins, returns, stops,
  gives_back, ticks, restarts, Reachable, boots, steps,
}
use kfs.Process.Keep.{
  HasRing, process_init-HasRing, release-HasRing, wait-HasRing, Created-HasRing, chosen-HasRing,
  some_lem, pair_lem, Same-HasRing, keeps_links, Picked, pick_any, scheduler_init-HasRing,
  fork_process-HasRing,
}

module _ (directories bootstrap : ℕ) where
  map_lem :
      (k q : Kernel) (o : Option (Bool × Kernel)) (b : Bool)
      → o ≡ some (b, q)
      → After (Same k) o
      → Same k q
  unfolding After
  map_lem k q o b e h = subst (After (Same k)) e h

  -- Every operation keeps the list in order.
  step-HasRing : (k q : Kernel) → HasRing k → Step directories bootstrap k q → HasRing q
  step-HasRing k q (xs, v) (creates parent owner base function size p e) =
      Created-HasRing k q xs p (
        subst (Created xs) e (
          process_create_internal-IsRing directories bootstrap k xs parent owner base function size
            v))
  step-HasRing k q h (forks source p e) =
      pair_lem HasRing (fork_process directories bootstrap k source) p q e
        (fork_process-HasRing directories bootstrap k source h)
  step-HasRing k q h (releases process e) = subst HasRing (sym e) (release-HasRing k process h)
  step-HasRing k q h (waits parent pid e) = subst HasRing (sym e) (wait-HasRing k parent pid h)
  step-HasRing k q h (ends process exit_code e) =
      Same-HasRing k q (process_exit k process exit_code) e h
        (process_exit-Same k process exit_code)
  step-HasRing k q h (handles process handler e) = Same-HasRing k q q refl h (
      some_lem (Same k) (process_signal k process handler) q e
        (process_signal-Same k process handler))
  step-HasRing k q h (signals process signal value e) = Same-HasRing k q q refl h (
      some_lem (Same k) (queue_process_signal k process signal value) q e
        (queue_process_signal-Same k process signal value))
  step-HasRing k q h (takes process e) =
      Same-HasRing k q (without_signal k process) e h (without_signal-Same k process)
  step-HasRing k q h (defaults process signal value e) =
      Same-HasRing k q (process_default_signal_handler k process signal value) e h
        (default_handler-Same k process signal value)
  step-HasRing k q h (opens process e) =
      Same-HasRing k q q refl h
        (some_lem (Same k) (socket_create k process) q e (socket_create-Same k process))
  step-HasRing k q h (sends pid value e) =
      Same-HasRing k q (socket_send k pid value).1 e h (socket_send-Same k pid value)
  step-HasRing k q h (receives process value e) =
      Same-HasRing k q q refl h
        (pair_lem (Same k) (socket_recv k process) value q e (socket_recv-Same k process))
  step-HasRing k q h (maps process b e) = Same-HasRing k q q refl h (
      map_lem k q (process_memory_map directories k process) b e
        (process_memory_map-Same directories k process))
  step-HasRing k q h (grows process size e) = Same-HasRing k q q refl h (
      some_lem (Same k) (process_memory_alloc k process size) q e
        (process_memory_alloc-Same k process size))
  step-HasRing k q h (writes paging e) =
      Same-HasRing k q (record k { paging = paging }) e h (repaged k paging)
  step-HasRing k q h (works process arg0 arg1 state value e) =
      Same-HasRing k q (worked k process arg0 arg1 state value) e h
        (worked-Same k process arg0 arg1 state value)
  step-HasRing k q h (yields e) = Same-HasRing k q (process_yield k) e h (process_yield-Same k)
  step-HasRing k q h (counts e) =
      Same-HasRing k q (count_down k) e h (keeps_links k (count_down k) refl refl refl refl)
  step-HasRing k q h (picks found e) = subst HasRing (sym e) (chosen-HasRing k h found)
  step-HasRing k q h (begins process e) =
      Same-HasRing k q (begin_turn k process) e h (begin_turn-Same k process)
  step-HasRing k q h (returns e) =
      Same-HasRing k q (process_switch_to_kernel_space k) e h
        (process_switch_to_kernel_space-Same k)
  step-HasRing k q h (stops process e) =
      Same-HasRing k q (end_turn k process) e h (end_turn-Same k process)
  step-HasRing k q h (gives_back e) =
      Same-HasRing k q (give_back k) e h (keeps_links k (give_back k) refl refl refl refl)
  step-HasRing k q h (ticks e) = Same-HasRing k q (scheduler_tick k) e h (scheduler_tick-Same k)
  step-HasRing k q h (restarts e) = subst HasRing (sym e) (scheduler_init-HasRing k h)

  Reachable-HasRing : (k : Kernel) → Reachable directories bootstrap k → HasRing k
  Reachable-HasRing k (boots k0) = process_init-HasRing directories k0
  Reachable-HasRing k (steps {k = k0} r s) = step-HasRing k0 k (Reachable-HasRing k0 r) s

  -- In every state that the operations of processes, the timer's ticks and the statements of the
  -- scheduler reach from `process_init`, the links spell a list of different records of the table,
  -- all in use, with the kernel's process first and the scheduler's cursor on it; and
  -- `pick_next_process` gives NULL only if the scheduler is off or none of them can run, and else
  -- one that can run.
  pub Reachable-IsRing :
      (k : Kernel) → Reachable directories bootstrap k → (xs : List ℕ) × IsRing k xs × Picked k xs
  Reachable-IsRing k r = let (xs, v) = Reachable-HasRing k r in (xs, v, pick_any k xs v)
