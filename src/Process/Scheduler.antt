-- ===== src/Process/Scheduler.antt =====
-- The scheduler, kernel/src/process.c: ticks of the timer are counted and worked off later, a
-- process a tick. What a process does until it gives the processor back is a parameter, `switch`:
-- process_context_switch from the scheduler to it.
use kfs.Base.{
  ℕ, zero, suc, ◌+◌, Bool, true, false, not, ◌&&◌, ◌||◌, Option, none, some, ◌==◌, if◌then◌else◌,
  add32, sub32,
}
use kfs.Paging.{paging_switch_directory}
use kfs.Process.{
  Process, ProcessStatus, ready, run, waiting, zombie, thread, Kernel, process_max_count, is_zombie,
  is_waiting, is_run, modify,
}
use kfs.Process.Delivery.{deliver_process_signal}

unfoldable pub scheduler_init : Kernel → Kernel
scheduler_init k = record k {
  pending_scheduler_ticks = 0;
  total_scheduler_ticks = 0;
  scheduler_cursor = k.kernel_process;
  scheduler_enabled = true;
}

unfoldable pub scheduler_tick : Kernel → Kernel
scheduler_tick k = record k {
  total_scheduler_ticks = add32 k.total_scheduler_ticks 1;
  pending_scheduler_ticks = add32 k.pending_scheduler_ticks 1;
}

abbrev pub is_schedulable : ProcessStatus → Bool
is_schedulable ready = true
is_schedulable run = true
is_schedulable waiting = false
is_schedulable zombie = false
is_schedulable thread = true

abbrev pub can_run : Process → Bool
can_run p = p.used && not (p.entry == 0) && is_schedulable p.status

-- `candidate->next != NULL ? candidate->next : process_head`
abbrev pub next_in_ring : Kernel → ℕ → ℕ
next_in_ring k candidate =
    let next = (k.process_table candidate).next in if next == 0 then k.process_head else next

-- The loop: as many rounds as the table has slots, since it ends where it began.
unfoldable pub find_runnable : ℕ → Kernel → ℕ → ℕ → ℕ
find_runnable zero k start candidate = 0
find_runnable (suc rounds) k start candidate =
    let next = next_in_ring k candidate in
    let rest = find_runnable rounds k start next in
    if can_run (k.process_table next) then next else if next == start then 0 else rest

-- `0` is NULL.
unfoldable pub pick_next_process : Kernel → ℕ
pick_next_process k =
    let start = if k.scheduler_cursor == 0 then k.process_head else k.scheduler_cursor in
    if not k.scheduler_enabled || k.process_head == 0
    then 0
    else find_runnable process_max_count k start start

unfoldable pub process_switch_to_kernel_space : Kernel → Kernel
process_switch_to_kernel_space k =
    let directory = (k.process_table k.kernel_process).memory.process_page_directory in
    if k.kernel_process == 0
    then k
    else record k { paging = paging_switch_directory k.paging directory }

-- The part of process_yield before it switches back to the scheduler.
unfoldable pub process_yield : Kernel → Kernel
process_yield k =
    let process = k.current_process in
    let p = k.process_table process in
    let status = if is_run p.status then ready else p.status in
    if process == 0 || process == k.kernel_process
    then k
    else modify (record k { total_context_switches = add32 k.total_context_switches 1 }) process
        (λ q. record q { status = status; switch_count = add32 q.switch_count 1 })

abbrev pub begin_turn : Kernel → ℕ → Kernel
begin_turn k process =
    let p = k.process_table process in
    record (modify k process (λ q. record q {
      status = run;
      cpu_ticks = add32 q.cpu_ticks 1;
      run_count = add32 q.run_count 1;
      switch_count = add32 q.switch_count 1;
    })) {
      total_context_switches = add32 k.total_context_switches 1;
      paging = paging_switch_directory k.paging p.memory.process_page_directory;
    }

abbrev pub end_turn : Kernel → ℕ → Kernel
end_turn k process =
    let status = (k.process_table process).status in
    if is_run status then modify k process (λ p. record p { status = ready }) else k

-- The scheduler's choice of a process.
abbrev pub chosen : Kernel → ℕ → Kernel
chosen k process = record k { scheduler_cursor = process; current_process = process }

-- `current_process = kernel_process;`
abbrev pub give_back : Kernel → Kernel
give_back k = record k { current_process = k.kernel_process }

-- `pending_scheduler_ticks--;`
abbrev pub count_down : Kernel → Kernel
count_down k = record k { pending_scheduler_ticks = sub32 k.pending_scheduler_ticks 1 }

module _ (call : ℕ → ℕ → ℕ → ℕ → Kernel → Kernel) (switch : ℕ → Kernel → Kernel) where
  unfoldable pub take_turn : Kernel → ℕ → Kernel
  unfolding process_switch_to_kernel_space
  take_turn k process =
      let status = (k.process_table process).status in
      let back = process_switch_to_kernel_space (switch process (begin_turn k process)) in
      if is_zombie status || is_waiting status then k else end_turn back process

  -- The process, 0 for NULL, and the state; the fuel is that of the delivery of signals.
  unfoldable pub schedule_next_process : ℕ → Kernel → Option (ℕ × Kernel)
  unfolding pick_next_process take_turn
  schedule_next_process fuel k =
      let next = pick_next_process k in
      if next == 0
      then some (0, k)
      else elim (deliver_process_signal call fuel (chosen k next) next) [
        | none ↦ none
        | some (delivered, k') ↦ some (next, give_back (take_turn k' next))
      ]

  -- The loop over all processes, from `p` on.
  unfoldable pub deliver_all : ℕ → ℕ → Kernel → ℕ → Option Kernel
  deliver_all fuel zero k p = some k
  deliver_all fuel (suc rounds) k p =
      let q = k.process_table p in
      let pending = q.used && not (q.signal_head == q.signal_tail) in
      let skipped = deliver_all fuel rounds k q.next in
      let served : Option Kernel = elim (deliver_process_signal call fuel k p) [
        | none ↦ none
        | some (delivered, k') ↦ deliver_all fuel rounds k' (k'.process_table p).next
      ] in
      if p == 0 then some k else if pending then served else skipped

  unfoldable pub process_deliver_all_pending_signals : ℕ → Kernel → Option Kernel
  unfolding deliver_all
  process_deliver_all_pending_signals fuel k = deliver_all fuel process_max_count k k.process_head

  unfoldable pub work_off : ℕ → Kernel → Option Kernel
  unfolding process_deliver_all_pending_signals schedule_next_process
  work_off fuel k = elim (process_deliver_all_pending_signals fuel (count_down k)) [
    | none ↦ none
    | some k' ↦ elim (schedule_next_process fuel k') [
      | none ↦ none
      | some (process, k'') ↦ some k''
    ]
  ]

  -- `executed`, and the state; the rounds left are `max_ticks - executed`.
  unfoldable pub run_pending : ℕ → ℕ → ℕ → Kernel → Option (ℕ × Kernel)
  run_pending fuel zero executed k = some (executed, k)
  run_pending fuel (suc rounds) executed k =
      let rest : Option (ℕ × Kernel) = elim (work_off fuel k) [
        | none ↦ none
        | some k' ↦ run_pending fuel rounds (executed + 1) k'
      ] in
      if k.pending_scheduler_ticks == 0 then some (executed, k) else rest

  unfoldable pub scheduler_run_pending : ℕ → ℕ → Kernel → Option (ℕ × Kernel)
  unfolding run_pending
  scheduler_run_pending fuel max_ticks k = run_pending fuel max_ticks 0 k

  -- The loop, with the rounds left.
  unfoldable pub scheduler_force_ticks : ℕ → ℕ → Kernel → Option Kernel
  unfolding scheduler_tick scheduler_run_pending
  scheduler_force_ticks fuel zero k = some k
  scheduler_force_ticks fuel (suc count) k =
      elim (scheduler_run_pending fuel 1 (scheduler_tick k)) [
        | none ↦ none
        | some (executed, k') ↦ scheduler_force_ticks fuel count k'
      ]
