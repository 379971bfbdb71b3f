-- ===== src/Process/Turns.antt =====
-- Signals, messages, memory and turns of the scheduler, kernel/src/process.c, leave the list of all
-- processes alone.
use kfs.Base.{
  ℕ, ◌≡◌, refl, sym, subst, true, ◌||◌, ◌==◌, ltb, Option, none, some, Bool-cases, Option-cases,
  inl, inr, add32,
}
use kfs.Process.{Process, Kernel, ready, run, is_run, modify}
use kfs.Process.Memory.{process_memory_alloc}
use kfs.Process.Delivery.{
  process_exit, take_signal, deliver_one, note_signal, is_fatal, process_default_signal_handler,
}
use kfs.Process.Sockets.{pop_message, socket_recv}
use kfs.Process.Scheduler.{begin_turn, end_turn, scheduler_tick}
use kfs.Process.Find.{identity}
use kfs.Process.MapSame.{Same, Same-trans, modify-Same}
use kfs.Process.Deliver.{is_default, run_handler_default}
use kfs.Process.Moves.{Same-refl, choose-Same, process_exit-Same, stored-Same, OnSome}

pub default_handler-Same :
    (k : Kernel) (process signal value : ℕ)
    → Same k (process_default_signal_handler k process signal value)
unfolding process_default_signal_handler
default_handler-Same k process signal value =
    let noted = note_signal k process signal value in
    let note =
      modify-Same k process (λ p. record p { last_signal = signal; last_signal_value = value })
        (λ p. refl) in
    choose-Same (is_fatal signal) (process_exit noted process (add32 128 signal)) noted
      (Same-trans note (process_exit-Same noted process (add32 128 signal))) note

pub take_signal-identity : (p : Process) → identity (take_signal p).1 ≡ identity p
unfolding take_signal
take_signal-identity p = refl

pub deliver_one-Same :
    (call : ℕ → ℕ → ℕ → ℕ → Kernel → Kernel) (k : Kernel) (process : ℕ)
    → is_default (k.process_table process).signal_handler ≡ true
    → Same k (deliver_one call k process)
unfolding deliver_one
deliver_one-Same call k process keeps =
    let p = k.process_table process in
    let pending = (take_signal p).0 in
    let k' = modify k process (λ q. (take_signal p).1) in
    subst (Same k)
      (sym
        (run_handler_default call p.signal_handler process pending.signal pending.value k' keeps))
      (Same-trans (stored-Same k process (take_signal p).1 (take_signal-identity p))
        (default_handler-Same k' process pending.signal pending.value))

-- What holds of the state behind a value.
unfoldable pub OnPair : (Kernel → Type 0) → Option (ℕ × Kernel) → Type 0
OnPair P none = Unit
OnPair P (some (value, k)) = P k

pub socket_recv-Same : (k : Kernel) (process : ℕ) → OnPair (Same k) (socket_recv k process)
unfolding socket_recv OnPair
socket_recv-Same k process = elim (Bool-cases (process == 0)) [
  | inl nothing ↦ rw nothing tt
  | inr given ↦ elim (Option-cases (pop_message (k.process_table process).process_socket)) [
    | inl empty ↦ rw (given, empty) tt
    | inr ((value, s), got) ↦
        rw (given, got)
          (modify-Same k process (λ q. record q { process_socket = s; last_socket_value = value })
            (λ q. refl))
  ]
]

pub process_memory_alloc-Same :
    (k : Kernel) (process size : ℕ) → OnSome (Same k) (process_memory_alloc k process size)
unfolding process_memory_alloc OnSome
process_memory_alloc-Same k process size =
    let m = (k.process_table process).memory in
    let heap_break = add32 m.heap_break size in
    elim (Bool-cases (process == 0 || size == 0)) [
      | inl nothing ↦ rw nothing tt
      | inr given ↦ elim (Bool-cases (ltb m.heap_end heap_break)) [
        | inl beyond ↦ rw (given, beyond) tt
        | inr inside ↦
            rw (given, inside)
              (modify-Same k process
                (λ p. record p { memory = record m { heap_break = heap_break } }) (λ p. refl))
      ]
    ]

pub begin_turn-Same : (k : Kernel) (process : ℕ) → Same k (begin_turn k process)
begin_turn-Same k process =
    let start : Process → Process = λ q. record q {
      status = run;
      cpu_ticks = add32 q.cpu_ticks 1;
      run_count = add32 q.run_count 1;
      switch_count = add32 q.switch_count 1;
    } in
    Same-trans (modify-Same k process start (λ q. refl))
      (record { table = λ a. refl; head = refl; kernel = refl; cursor = refl })

pub end_turn-Same : (k : Kernel) (process : ℕ) → Same k (end_turn k process)
end_turn-Same k process =
    choose-Same (is_run (k.process_table process).status)
      (modify k process (λ p. record p { status = ready })) k
      (modify-Same k process (λ p. record p { status = ready }) (λ p. refl)) (Same-refl k)

pub scheduler_tick-Same : (k : Kernel) → Same k (scheduler_tick k)
unfolding scheduler_tick
scheduler_tick-Same k = record { table = λ a. refl; head = refl; kernel = refl; cursor = refl }
