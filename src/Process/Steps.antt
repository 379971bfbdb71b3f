-- ===== src/Process/Steps.antt =====
-- The states that the operations of kernel/src/process.c reach from process_init. The steps of a
-- turn are those of schedule_next_process and scheduler_run_pending, one for each change of state;
-- between them, the process that has the processor takes the steps of the operations it calls.
use kfs.Base.{ℕ, ◌≡◌, ◌≢◌, Bool, some}
use kfs.Paging.{Paging}
use kfs.Process.{Kernel, SignalHandler, modify}
use kfs.Process.Memory.{process_memory_alloc, process_memory_map}
use kfs.Process.Delivery.{
  process_exit, process_signal, queue_process_signal, process_default_signal_handler,
  without_signal,
}
use kfs.Process.Sockets.{socket_create, socket_send, socket_recv}
use kfs.Process.Lifecycle.{
  process_create_internal, process_release, fork_process, Waited, no_child, still_running, reaped,
  process_wait,
}
use kfs.Process.Scheduler.{
  pick_next_process, process_yield, begin_turn, end_turn, scheduler_tick, scheduler_init, chosen,
  give_back, count_down, process_switch_to_kernel_space,
}
use kfs.Process.Boot.{process_init}

-- The state behind a wait.
abbrev pub after_wait : Kernel → Waited → Kernel
after_wait k no_child = k
after_wait k (still_running q) = q
after_wait k (reaped exit_code q) = q

-- What the bodies of the processes write into their own records.
abbrev pub worked : Kernel → ℕ → ℕ → ℕ → ℕ → ℕ → Kernel
worked k process arg0 arg1 state value = modify k process (λ p. record p {
  runtime_arg0 = arg0;
  runtime_arg1 = arg1;
  runtime_state = state;
  runtime_value = value;
})

module _ (directories bootstrap : ℕ) where
  -- One operation of a process or of the timer's interrupt, or one statement of the scheduler.
  pub data Step (k q : Kernel) : Type 0 where
    creates :
        (parent owner base function size p : ℕ)
        → process_create_internal directories bootstrap k parent owner base function size
          ≡ some (p, q)
        → Step k q
    forks : (source p : ℕ) → fork_process directories bootstrap k source ≡ some (p, q) → Step k q
    releases : (process : ℕ) → q ≡ process_release k process → Step k q
    waits : (parent pid : ℕ) → q ≡ after_wait k (process_wait k parent pid) → Step k q
    ends : (process exit_code : ℕ) → q ≡ process_exit k process exit_code → Step k q
    handles :
        (process : ℕ) (handler : SignalHandler)
        → process_signal k process handler ≡ some q
        → Step k q
    signals :
        (process signal value : ℕ) → queue_process_signal k process signal value ≡ some q → Step k q
    takes : (process : ℕ) → q ≡ without_signal k process → Step k q
    defaults :
        (process signal value : ℕ)
        → q ≡ process_default_signal_handler k process signal value
        → Step k q
    opens : (process : ℕ) → socket_create k process ≡ some q → Step k q
    sends : (pid value : ℕ) → q ≡ (socket_send k pid value).1 → Step k q
    receives : (process value : ℕ) → socket_recv k process ≡ some (value, q) → Step k q
    maps :
        (process : ℕ) (b : Bool) → process_memory_map directories k process ≡ some (b, q) → Step k q
    grows : (process size : ℕ) → process_memory_alloc k process size ≡ some q → Step k q
    writes : (paging : Paging) → q ≡ record k { paging = paging } → Step k q
    works :
        (process arg0 arg1 state value : ℕ) → q ≡ worked k process arg0 arg1 state value → Step k q
    yields : q ≡ process_yield k → Step k q
    counts : q ≡ count_down k → Step k q
    picks : pick_next_process k ≢ 0 → q ≡ chosen k (pick_next_process k) → Step k q
    begins : (process : ℕ) → q ≡ begin_turn k process → Step k q
    returns : q ≡ process_switch_to_kernel_space k → Step k q
    stops : (process : ℕ) → q ≡ end_turn k process → Step k q
    gives_back : q ≡ give_back k → Step k q
    ticks : q ≡ scheduler_tick k → Step k q
    restarts : q ≡ scheduler_init k → Step k q

  pub data Reachable : Kernel → Type 0 where
    boots : (k : Kernel) → Reachable (process_init directories k)
    steps : {k q : Kernel} → Reachable k → Step k q → Reachable q
