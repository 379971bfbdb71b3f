-- ===== src/Signals/Tests.antt =====
-- Tests of the signal queue, and its theorems at concrete queues.
use mathlib.Core.Option
use kfs.Base.{
  ℕ, ◌+◌, ◌≡◌, refl, inl, none, some, [], ◌∷◌, arith, ◌&&◌, ltb, if◌then◌else◌, length, replicate,
  set, All-replicate,
}
use kfs.Base.Circular.{window}
use kfs.Fifo
use kfs.Signals.{
  Signals, PendingSignal, no_signal, signal_queue_capacity, max_kernel_signals, signals_init,
  schedule_signal, signal_dispatch_pending,
}
use kfs.Signals.Queue.{
  IsValid, waiting, SignalFits, signals_init-IsValid, schedule_signal_refines, signals_step-IsValid,
}
use kfs.Signals.Dispatch.{replay, signal_dispatch_pending_lem}

abbrev zeroed : Signals ℕ
zeroed = record {
  signal_handlers = [];
  pending_signals = replicate signal_queue_capacity no_signal;
  signal_head = 0;
  signal_tail = 0;
}

zeroed-fits : IsValid (signals_init zeroed) × (waiting (signals_init zeroed) ≡ [])
zeroed-fits =
    signals_init-IsValid zeroed refl
      (All-replicate SignalFits signal_queue_capacity no_signal (omega arith))

signals_init-IsValid_example : IsValid (signals_init zeroed) × (waiting (signals_init zeroed) ≡ [])
signals_init-IsValid_example =
    signals_init-IsValid zeroed refl
      (All-replicate SignalFits signal_queue_capacity no_signal (omega arith))

abbrev test_signal : PendingSignal
test_signal = record { signal = 1; value = 7; context = 0 }

-- One test signal waits.
one_waiting : Signals ℕ
one_waiting = record {
  signal_handlers = replicate max_kernel_signals none;
  pending_signals = set (replicate signal_queue_capacity no_signal) 0 test_signal;
  signal_head = 0;
  signal_tail = 1;
}

scheduled : schedule_signal (signals_init zeroed) 1 7 0 ≡ some one_waiting
unfolding schedule_signal signals_init one_waiting
scheduled = refl

one_waiting-IsValid : IsValid one_waiting
one_waiting-IsValid = signals_step-IsValid 1 7 0 none zeroed-fits.0 (inl scheduled)

one_waiting_runs : waiting one_waiting ≡ test_signal ∷ []
unfolding one_waiting window
one_waiting_runs = refl

schedule_signal_refines_example : Option.map waiting (schedule_signal one_waiting 2 65 0) ≡ (
    if ltb 0 2 && ltb 2 32
    then Fifo.push 63 (waiting one_waiting) (record { signal = 2; value = 65; context = 0 })
    else none)
schedule_signal_refines_example = schedule_signal_refines one_waiting-IsValid 2 65 0

-- A callback that adds the signal's value to a counter.
abbrev adding : ℕ → PendingSignal → Signals ℕ × ℕ → Signals ℕ × ℕ
adding h e sw = (sw.0, sw.1 + e.value)

signal_dispatch_pending_lem_example :
    (signal_dispatch_pending adding 2 (one_waiting, 0)
      ≡ some (length (waiting one_waiting), replay adding (waiting one_waiting) (one_waiting, 0)))
    × (waiting (replay adding (waiting one_waiting) (one_waiting, 0)).0 ≡ [])
signal_dispatch_pending_lem_example =
    signal_dispatch_pending_lem adding (λ h e sw. refl) 2 one_waiting 0 one_waiting-IsValid
      (rw one_waiting_runs (omega arith))
