-- ===== src/Signals.antt =====
-- The kernel's signal queue, kernel/src/signals.c. `H` stands for the addresses of callbacks. An
-- `int` is its 32-bit pattern; what returns -1 and changes nothing answers `none`.
pub mod Queue
pub mod Dispatch
mod Tests
use kfs.Base.{
  ℕ, zero, suc, ◌+◌, ◌-◌, ◌%◌, Bool, Option, none, some, List, ◌||◌, leb, ◌==◌, if◌then◌else◌,
  get_or, set, replicate, u8,
}

pub record PendingSignal : Type 0 where
  pub signal : ℕ
  pub value : ℕ
  pub context : ℕ

pub record Signals (H : Type 0) : Type 0 where
  pub signal_handlers : List (Option H)
  pub pending_signals : List PendingSignal
  pub signal_head : ℕ
  pub signal_tail : ℕ

-- MAX_KERNEL_SIGNALS and SIGNAL_QUEUE_CAPACITY
abbrev pub max_kernel_signals : ℕ
max_kernel_signals = 32

abbrev pub signal_queue_capacity : ℕ
signal_queue_capacity = 64

-- What a static variable holds at first.
abbrev pub no_signal : PendingSignal
no_signal = record { signal = 0; value = 0; context = 0 }

-- `signal <= 0 || signal >= MAX_KERNEL_SIGNALS`: a pattern from 2 ^ 31 on is negative.
abbrev pub bad_signal : ℕ → Bool
bad_signal signal = leb 0x8000_0000 signal || signal == 0 || leb max_kernel_signals signal

module _ {H : Type 0} where
  -- The queue's array keeps what it held.
  unfoldable pub signals_init : Signals H → Signals H
  signals_init s = record s {
    signal_handlers = replicate max_kernel_signals none;
    signal_head = 0;
    signal_tail = 0;
  }

  unfoldable pub register_signal_handler : Signals H → ℕ → Option H → Option (Signals H)
  register_signal_handler s signal handler =
      if bad_signal signal
      then none
      else some (record s { signal_handlers = set s.signal_handlers signal handler })

  unfoldable pub schedule_signal : Signals H → ℕ → ℕ → ℕ → Option (Signals H)
  schedule_signal s signal value context =
      let next_tail = (s.signal_tail + 1) % signal_queue_capacity in
      let entry : PendingSignal = record { signal = u8 signal; value = value; context = context } in
      if bad_signal signal
      then none
      else if next_tail == s.signal_head
      then none
      else some (record s {
        pending_signals = set s.pending_signals s.signal_tail entry;
        signal_tail = next_tail;
      })

  unfoldable pub signal_pending_count : Signals H → ℕ
  signal_pending_count s =
      if leb s.signal_head s.signal_tail
      then s.signal_tail - s.signal_head
      else signal_queue_capacity - s.signal_head + s.signal_tail

  -- The part of a round of `signal_dispatch_pending` that runs with interrupts off: the oldest
  -- entry is taken off, and its handler looked up.
  unfoldable pub take_pending : Signals H → PendingSignal × Option H × Signals H
  take_pending s =
      let pending = get_or s.pending_signals s.signal_head no_signal in
      (
        pending,
        get_or s.signal_handlers pending.signal none,
        record s { signal_head = (s.signal_head + 1) % signal_queue_capacity },
      )

-- What a callback does to the queue and to the rest of the machine, `W`, is a parameter.
module _ {H W : Type 0} (call : H → PendingSignal → Signals H × W → Signals H × W) where
  unfoldable pub run_callback : Option H → PendingSignal → Signals H × W → Signals H × W
  run_callback none pending sw = sw
  run_callback (some h) pending sw = call h pending sw

  -- `while (1)`; `none` means that the fuel ran out.
  unfoldable pub dispatch : ℕ → ℕ → Signals H × W → Option (ℕ × (Signals H × W))
  unfolding run_callback take_pending
  dispatch zero dispatched (s, w) = none
  dispatch (suc fuel) dispatched (s, w) =
      let (pending, callback, s') = take_pending s in
      let rest = dispatch fuel (dispatched + 1) (run_callback callback pending (s', w)) in
      if s.signal_head == s.signal_tail then some (dispatched, (s, w)) else rest

  unfoldable pub signal_dispatch_pending : ℕ → Signals H × W → Option (ℕ × (Signals H × W))
  unfolding dispatch
  signal_dispatch_pending fuel sw = dispatch fuel 0 sw
