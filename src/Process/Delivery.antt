-- ===== src/Process/Delivery.antt =====
-- The end of a process, and its signals, kernel/src/process.c. Masking of interrupts is
-- what makes each operation one step.
use kfs.Base.{
  ℕ, zero, suc, ◌+◌, ◌-◌, ◌%◌, Bool, true, false, not, ◌&&◌, ◌||◌, Option, none, some, leb, ◌==◌,
  if◌then◌else◌, get_or, set, add32,
}
use kfs.Process.{
  Process, PendingProcessSignal, SignalHandler, no_handler, default_handler, handler_at, Kernel,
  ready, zombie, process_signal_queue_capacity, no_signal, is_zombie, is_waiting, modify,
}
use kfs.Process.Links.{process_get_by_pid}

-- PROCESS_SIGNAL_KILL, PROCESS_SIGNAL_TERM and PROCESS_SIGNAL_SOCKET
abbrev pub process_signal_kill : ℕ
process_signal_kill = 9

abbrev pub process_signal_term : ℕ
process_signal_term = 15

abbrev pub process_signal_socket : ℕ
process_signal_socket = 17

abbrev pub waits_for : Process → ℕ → Bool
waits_for q pid = is_waiting q.status && (q.wait_target_pid == 0 || q.wait_target_pid == pid)

unfoldable pub wake_parent : Kernel → ℕ → ℕ → Kernel
wake_parent k parent pid =
    if not (parent == 0) && waits_for (k.process_table parent) pid
    then modify k parent (λ q. record q { status = ready })
    else k

unfoldable pub process_exit : Kernel → ℕ → ℕ → Kernel
unfolding wake_parent
process_exit k process exit_code =
    let p = k.process_table process in
    let ended = modify k process (λ q. record q { exit_code = exit_code; status = zombie }) in
    if process == 0 || process == k.kernel_process
    then k
    else if is_zombie p.status
    then k
    else wake_parent ended p.parent p.pid

unfoldable pub process_can_signal : Kernel → ℕ → ℕ → Bool
process_can_signal k sender target =
    let s = k.process_table sender in
    if target == 0
    then false
    else if sender == 0
    then true
    else if s.owner == 0 || sender == target
    then true
    else s.owner == (k.process_table target).owner

-- `process->last_signal = signal; process->last_signal_value = value;`
abbrev pub note_signal : Kernel → ℕ → ℕ → ℕ → Kernel
note_signal k process signal value =
    modify k process (λ p. record p { last_signal = signal; last_signal_value = value })

abbrev pub is_fatal : ℕ → Bool
is_fatal signal = signal == process_signal_term || signal == process_signal_kill

unfoldable pub process_default_signal_handler : Kernel → ℕ → ℕ → ℕ → Kernel
unfolding process_exit
process_default_signal_handler k process signal value =
    let noted = note_signal k process signal value in
    if is_fatal signal then process_exit noted process (add32 128 signal) else noted

unfoldable pub process_signal : Kernel → ℕ → SignalHandler → Option Kernel
process_signal k process handler =
    let chosen : SignalHandler = elim handler [ no_handler ↦ default_handler | h ↦ h ] in
    if process == 0
    then none
    else some (modify k process (λ p. record p { signal_handler = chosen }))

-- On a record: `none` is a full queue.
unfoldable pub push_signal : Process → ℕ → ℕ → Option Process
push_signal p signal value =
    let next_tail = (p.signal_tail + 1) % process_signal_queue_capacity in
    let pending : PendingProcessSignal = record { signal = signal; value = value } in
    if next_tail == p.signal_head
    then none
    else some (record p {
      pending_process_signals = set p.pending_process_signals p.signal_tail pending;
      signal_tail = next_tail;
    })

abbrev pub store : Kernel → ℕ → Option Process → Option Kernel
store k process none = none
store k process (some p) = some (modify k process (λ q. p))

unfoldable pub queue_process_signal : Kernel → ℕ → ℕ → ℕ → Option Kernel
unfolding push_signal
queue_process_signal k process signal value =
    if process == 0
    then none
    else store k process (push_signal (k.process_table process) signal value)

unfoldable pub process_signal_pending_count : Kernel → ℕ → ℕ
process_signal_pending_count k process =
    let p = k.process_table process in
    if process == 0
    then 0
    else if leb p.signal_head p.signal_tail
    then p.signal_tail - p.signal_head
    else process_signal_queue_capacity - p.signal_head + p.signal_tail

-- The oldest entry, and the process without it.
unfoldable pub take_signal : Process → PendingProcessSignal × Process
take_signal p =
    let pending = get_or p.pending_process_signals p.signal_head no_signal in
    (
      pending,
      record p {
        signal_head = (p.signal_head + 1) % process_signal_queue_capacity;
        last_signal = pending.signal;
        last_signal_value = pending.value;
      },
    )

-- The process without its oldest entry, in the table.
abbrev pub without_signal : Kernel → ℕ → Kernel
without_signal k process = modify k process (λ p. (take_signal (k.process_table process)).1)

-- What a handler at another address does is a parameter.
module _ (call : ℕ → ℕ → ℕ → ℕ → Kernel → Kernel) where
  unfoldable pub run_handler : SignalHandler → ℕ → ℕ → ℕ → Kernel → Kernel
  unfolding process_default_signal_handler
  run_handler no_handler process signal value k =
      process_default_signal_handler k process signal value
  run_handler default_handler process signal value k =
      process_default_signal_handler k process signal value
  run_handler (handler_at address) process signal value k = call address process signal value k

  -- One round of the loop.
  unfoldable pub deliver_one : Kernel → ℕ → Kernel
  unfolding take_signal run_handler
  deliver_one k process =
      let p = k.process_table process in
      let (pending, taken) = take_signal p in
      run_handler p.signal_handler process pending.signal pending.value
        (modify k process (λ q. taken))

  -- `none` means that the fuel ran out.
  unfoldable pub deliver : ℕ → ℕ → Kernel → ℕ → Option (ℕ × Kernel)
  unfolding deliver_one
  deliver zero delivered k process = none
  deliver (suc fuel) delivered k process =
      let p = k.process_table process in
      let k' = deliver_one k process in
      let rest = deliver fuel (delivered + 1) k' process in
      if p.signal_head == p.signal_tail
      then some (delivered, k)
      else if is_zombie (k'.process_table process).status
      then some (delivered + 1, k')
      else rest

  unfoldable pub deliver_process_signal : ℕ → Kernel → ℕ → Option (ℕ × Kernel)
  unfolding deliver
  deliver_process_signal fuel k process =
      let rest = deliver fuel 0 k process in if process == 0 then some (0, k) else rest

unfoldable pub send_signal_to_process : Kernel → ℕ → ℕ → ℕ → ℕ → Option Kernel
unfolding queue_process_signal process_can_signal
send_signal_to_process k sender pid signal value =
    let target = process_get_by_pid k pid in
    if not (process_can_signal k sender target)
    then none
    else queue_process_signal k target signal value

unfoldable pub kill_process : Kernel → ℕ → ℕ → ℕ → Option Kernel
unfolding send_signal_to_process
kill_process k sender pid signal = send_signal_to_process k sender pid signal 0
