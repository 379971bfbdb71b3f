-- ===== src/Process/Rights.antt =====
-- Who may signal whom, kernel/src/process.c.
use mathlib.Core.Option
use kfs.Base.{
  ℕ, ◌≡◌, ◌≢◌, refl, sym, ap, ◌∙◌, Bool, not, ◌&&◌, ◌||◌, none, some, arith, ◌==◌, if◌then◌else◌,
  Option-cases, Bool-cases, inl, inr,
}
use kfs.Fifo
use kfs.Process.{Kernel}
use kfs.Process.Links.{process_get_by_pid}
use kfs.Process.Delivery.{
  process_can_signal, push_signal, queue_process_signal, send_signal_to_process,
}
use kfs.Process.Queues.{HasQueue, signals, push_signal_refines}
use kfs.Process.Messages.{signals_of, queue_process_signal_result}
use kfs.Process.Table.{update_self}

-- The sender is the kernel itself, runs for user 0, is the target, or has the target's owner.
abbrev pub may_signal : Kernel → ℕ → ℕ → Bool
may_signal k sender target =
    let owner = (k.process_table sender).owner in
    sender == 0 || owner == 0 || sender == target || owner == (k.process_table target).owner

can_signal_lem :
    (k : Kernel) (sender target : ℕ)
    → process_can_signal k sender target ≡ (not (target == 0) && may_signal k sender target)
unfolding process_can_signal
can_signal_lem k sender target = ground arith

queued :
    (k : Kernel) (process signal value : ℕ)
    → process ≢ 0
    → HasQueue (k.process_table process)
    → Option.map (λ q. signals_of q process) (queue_process_signal k process signal value)
      ≡ Fifo.push 15 (signals_of k process) (record { signal = signal; value = value })
queued k process signal value nz q =
    elim (Option-cases (push_signal (k.process_table process) signal value)) [
      | inl full ↦
          ap (Option.map (λ r. signals_of r process))
            (queue_process_signal_result k process signal value nz refl full)
          ∙ ap (Option.map signals) (sym full)
          ∙ push_signal_refines q signal value
      | inr (p, got) ↦
          ap (Option.map (λ r. signals_of r process))
            (queue_process_signal_result k process signal value nz refl got)
          ∙ ap (λ r. some (signals r)) (update_self k.process_table process p)
          ∙ ap (Option.map signals) (sym got)
          ∙ push_signal_refines q signal value
    ]

-- `send_signal_to_process` fails, and changes nothing, when no process has the pid, or the sender
-- is another user's and not user 0's; else it is the push of the target's queue of at most 15
-- signals.
pub send_signal_to_process_lem :
    (k : Kernel) (sender pid signal value : ℕ)
    → let target = process_get_by_pid k pid in
      HasQueue (k.process_table target)
      → Option.map (λ q. signals_of q target) (send_signal_to_process k sender pid signal value) ≡ (
          if not (target == 0) && may_signal k sender target
          then Fifo.push 15 (signals_of k target) (record { signal = signal; value = value })
          else none)
unfolding send_signal_to_process
send_signal_to_process_lem k sender pid signal value q =
    let target = process_get_by_pid k pid in
    elim (Bool-cases (not (target == 0) && may_signal k sender target)) [
      | inl may ↦
          let there : target ≢ 0 = ground (arith, may) in
          rw (may, can_signal_lem, may) (queued k target signal value there q)
      | inr not_may ↦ rw (not_may, can_signal_lem, not_may) refl
    ]
