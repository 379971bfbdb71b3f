-- ===== src/Process/Deliver.antt =====
-- The delivery of the pending signals to a process that keeps the default handler,
-- kernel/src/process.c.
use kfs.Base.{
  ℕ, ◌≡◌, ◌≢◌, refl, sym, ap, subst, ◌∙◌, Bool, true, false, Option, none, some, List, [], ◌∷◌,
  arith, ◌==◌, if◌then◌else◌, Bool-cases, inl, inr, add32,
}
use kfs.Fifo
use kfs.Process.{
  Process, PendingProcessSignal, SignalHandler, no_handler, default_handler, handler_at, Kernel,
  is_zombie, modify,
}
use kfs.Process.Delivery.{
  is_fatal, note_signal, process_exit, process_default_signal_handler, take_signal, run_handler,
  deliver_one,
}
use kfs.Process.Queues.{HasQueue, signals, take_signal_refines, take_signal-HasQueue}
use kfs.Process.Messages.{signals_of}
use kfs.Process.Table.{update_self}
use kfs.Process.Wait.{process_exit_lem, after_exit_self, ended}

-- The signals up to the first that ends the process, and those behind it.
unfoldable pub served : List PendingProcessSignal → List PendingProcessSignal
served [] = []
served (s ∷ ss) = let rest = served ss in if is_fatal s.signal then s ∷ [] else s ∷ rest

unfoldable pub unserved : List PendingProcessSignal → List PendingProcessSignal
unserved [] = []
unserved (s ∷ ss) = let rest = unserved ss in if is_fatal s.signal then ss else rest

-- The exit code of the first signal that ends the process.
unfoldable pub fatal_code : List PendingProcessSignal → Option ℕ
fatal_code [] = none
fatal_code (s ∷ ss) =
    let rest = fatal_code ss in if is_fatal s.signal then some (add32 128 s.signal) else rest

abbrev pub is_default : SignalHandler → Bool
is_default no_handler = true
is_default default_handler = true
is_default (handler_at address) = false

-- A process that runs, is not the kernel's, has its queue and keeps the default handler.
pub record IsTarget (k : Kernel) (process : ℕ) : Type 0 where
  pub exists : process ≢ 0
  pub user : process ≢ k.kernel_process
  pub queue : HasQueue (k.process_table process)
  pub alive : is_zombie (k.process_table process).status ≡ false
  pub own_parent : (k.process_table process).parent ≢ process
  pub handler : is_default (k.process_table process).signal_handler ≡ true

module _ (call : ℕ → ℕ → ℕ → ℕ → Kernel → Kernel) where
  pub run_handler_default :
      (handler : SignalHandler) (process signal value : ℕ) (k : Kernel)
      → is_default handler ≡ true
      → run_handler call handler process signal value k
        ≡ process_default_signal_handler k process signal value
  unfolding run_handler
  run_handler_default no_handler process signal value k e = refl
  run_handler_default default_handler process signal value k e = refl
  run_handler_default (handler_at address) process signal value k e = absurd (ground (arith, e))

-- One signal, for such a process.
module _ (call : ℕ → ℕ → ℕ → ℕ → Kernel → Kernel) (k : Kernel) (process : ℕ)
    (v : IsTarget k process) where
  abbrev pub first : PendingProcessSignal
  first = (take_signal (k.process_table process)).0

  abbrev pub taken : Process
  taken = (take_signal (k.process_table process)).1

  abbrev pub handled : Kernel
  handled = note_signal (modify k process (λ q. taken)) process first.signal first.value

  pub deliver_one_default : deliver_one call k process ≡ (
      if is_fatal first.signal
      then process_exit handled process (add32 128 first.signal)
      else handled)
  unfolding deliver_one process_default_signal_handler
  deliver_one_default =
      run_handler_default call (k.process_table process).signal_handler process first.signal
        first.value (modify k process (λ q. taken)) v.handler

  abbrev note : Process → Process
  note p = record p { last_signal = first.signal; last_signal_value = first.value }

  handled_record : handled.process_table process ≡ taken
  unfolding take_signal
  handled_record =
      update_self (modify k process (λ q. taken)).process_table process
        (note ((modify k process (λ q. taken)).process_table process))
      ∙ ap note (update_self k.process_table process taken)

  handled_alive : is_zombie (handled.process_table process).status ≡ false
  unfolding take_signal
  handled_alive = ap (λ p. is_zombie p.status) handled_record ∙ v.alive

  handled_parent : (handled.process_table process).parent ≢ process
  unfolding take_signal
  handled_parent = λ e. v.own_parent (sym (ap (λ p. p.parent) handled_record) ∙ e)

  exited_record :
      (process_exit handled process (add32 128 first.signal)).process_table process
      ≡ ended taken (add32 128 first.signal)
  exited_record =
      process_exit_lem handled process (add32 128 first.signal) process v.exists v.user
        handled_alive handled_parent
      ∙ after_exit_self handled process (add32 128 first.signal)
      ∙ ap (λ p. ended p (add32 128 first.signal)) handled_record

  -- The record behind the round.
  pub one_record :
      (deliver_one call k process).process_table process
      ≡ (if is_fatal first.signal then ended taken (add32 128 first.signal) else taken)
  one_record =
      ap (λ q. q.process_table process) deliver_one_default
      ∙ elim (Bool-cases (is_fatal first.signal)) [
        | inl fatal ↦ rw fatal exited_record
        | inr mild ↦ rw mild handled_record
      ]

  -- A signal that does not end it leaves such a process.
  pub mild-IsTarget : is_fatal first.signal ≡ false → IsTarget (deliver_one call k process) process
  unfolding take_signal
  mild-IsTarget mild =
      let step : deliver_one call k process ≡ handled = rw (deliver_one_default, mild) refl in
      subst (λ q. IsTarget q process) (sym step)
        (record {
          exists = v.exists;
          user = v.user;
          queue = subst HasQueue (sym handled_record) (take_signal-HasQueue v.queue);
          alive = handled_alive;
          own_parent = handled_parent;
          handler = ap (λ p. is_default p.signal_handler) handled_record ∙ v.handler;
        })

-- The exit code of a process that has ended.
abbrev pub exit_of : Process → Option ℕ
exit_of p = if is_zombie p.status then some p.exit_code else none

-- What the delivery has done for the signals that waited.
pub record Delivered (process : ℕ) (xs : List PendingProcessSignal) (k : Kernel) : Type 0 where
  pub waiting : signals_of k process ≡ unserved xs
  pub outcome : exit_of (k.process_table process) ≡ fatal_code xs

module _ (call : ℕ → ℕ → ℕ → ℕ → Kernel → Kernel) where
  -- The queue, by whether it is empty.
  pub queue_empty :
      (k : Kernel) (process : ℕ)
      → HasQueue (k.process_table process)
      → signals_of k process ≡ []
      → ((k.process_table process).signal_head == (k.process_table process).signal_tail) ≡ true
  unfolding Fifo.pop
  queue_empty k process q e =
      let popped = take_signal_refines q ∙ ap Fifo.pop e in ground (arith, popped)

  pub queue_more :
      (k : Kernel) (process : ℕ) (x : PendingProcessSignal) (xs : List PendingProcessSignal)
      → HasQueue (k.process_table process)
      → signals_of k process ≡ x ∷ xs
      → (((k.process_table process).signal_head == (k.process_table process).signal_tail) ≡ false)
        × ((take_signal (k.process_table process)).0 ≡ x)
        × (signals (take_signal (k.process_table process)).1 ≡ xs)
  unfolding Fifo.pop
  queue_more k process x xs q e =
      let popped = take_signal_refines q ∙ ap Fifo.pop e in ground (arith, popped)
