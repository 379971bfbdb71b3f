-- ===== src/Signals/Queue.antt =====
-- The queue of kernel/src/signals.c against the abstract queue of at most 63 entries.
use mathlib.Core.Option
use kfs.Base.{
  ℕ, ◌+◌, ◌%◌, ◌<◌, ◌≡◌, ◌⊎◌, ◌≢◌, Option, none, some, List, [], ◌∷◌, arith, true, false, ◌&&◌, ltb,
  ◌==◌, if◌then◌else◌, Bool-cases, inl, inr, length, length-set, length-replicate, All, All-set,
  All-get_or, u8,
}
use kfs.Base.Circular.{contents, contents-pop, contents_empty, length-window, next_index, pending}
use kfs.Fifo
use kfs.Fifo.Refine.{circular_push, circular_pop, map_unless}
use kfs.Signals.{
  Signals, PendingSignal, no_signal, bad_signal, signal_queue_capacity, max_kernel_signals,
  signals_init, take_pending, register_signal_handler, schedule_signal, signal_pending_count,
}

-- The arrays have their sizes, the indices lie inside the queue, and every entry names a handler.
pub record IsValid {H : Type 0} (s : Signals H) : Type 0 where
  pub handlers : length s.signal_handlers ≡ max_kernel_signals
  pub size : length s.pending_signals ≡ signal_queue_capacity
  pub head : s.signal_head < signal_queue_capacity
  pub tail : s.signal_tail < signal_queue_capacity
  pub known : All (λ e. e.signal < max_kernel_signals) s.pending_signals

abbrev pub SignalFits : PendingSignal → Type 0
SignalFits e = e.signal < max_kernel_signals

-- The entries that wait, oldest first.
abbrev pub waiting : {H : Type 0} → Signals H → List PendingSignal
waiting s = contents no_signal signal_queue_capacity s.pending_signals s.signal_head s.signal_tail

module _ {H : Type 0} {s : Signals H} (v : IsValid s) where
  pub next_index-tail :
      (s.signal_tail + 1) % signal_queue_capacity ≡ next_index signal_queue_capacity s.signal_tail
  next_index-tail = ground arith

  pub next_index-head :
      (s.signal_head + 1) % signal_queue_capacity ≡ next_index signal_queue_capacity s.signal_head
  next_index-head = ground arith

  -- `signal_pending_count` is the number of entries that wait, and below the capacity.
  pub signal_pending_count_lem :
      (signal_pending_count s ≡ length (waiting s))
      × (signal_pending_count s < signal_queue_capacity)
  unfolding signal_pending_count
  signal_pending_count_lem = ground (
    arith,
    length-window no_signal signal_queue_capacity s.pending_signals s.signal_head
        (pending signal_queue_capacity s.signal_head s.signal_tail),
  )

  pub length-waiting :
      length (waiting s) ≡ pending signal_queue_capacity s.signal_head s.signal_tail
  length-waiting = length-window no_signal signal_queue_capacity s.pending_signals s.signal_head _

  -- `schedule_signal` refuses every signal but 1 to 31, negative ones among them; with one of those
  -- it is the push of the abstract queue of at most 63 entries.
  pub schedule_signal_refines :
      (signal value context : ℕ)
      → Option.map waiting (schedule_signal s signal value context) ≡ (
          if ltb 0 signal && ltb signal 32
          then Fifo.push 63
              (waiting s)
              (record { signal = signal; value = value; context = context })
          else none)
  unfolding schedule_signal
  schedule_signal_refines signal value context = elim (Bool-cases (bad_signal signal)) [
    | inl bad ↦
        let outside : (ltb 0 signal && ltb signal 32) ≡ false = ground (arith, bad) in
        rw (bad, outside, schedule_signal)
    | inr good ↦
        let entry : PendingSignal = record { signal = signal; value = value; context = context } in
        let small : u8 signal ≡ signal = ground arith in
        let inside : (ltb 0 signal && ltb signal 32) ≡ true = ground (arith, good) in
        rw (good, inside, schedule_signal, next_index-tail, small, map_unless)
          (circular_push no_signal signal_queue_capacity s.pending_signals s.signal_head
            s.signal_tail v.head v.tail entry (omega (arith, v.size)))
  ]

  pub schedule_signal-IsValid :
      (signal value context : ℕ) {t : Signals H}
      → schedule_signal s signal value context ≡ some t
      → IsValid t
  unfolding schedule_signal
  schedule_signal-IsValid signal value context e =
      let entry : PendingSignal = record { signal = u8 signal; value = value; context = context } in
      ground (
        arith,
        length-set s.pending_signals s.signal_tail entry,
        All-set SignalFits s.pending_signals s.signal_tail entry v.known,
      )

  pub register_signal_handler-IsValid :
      (signal : ℕ) (handler : Option H) {t : Signals H}
      → register_signal_handler s signal handler ≡ some t
      → IsValid t
  unfolding register_signal_handler
  register_signal_handler-IsValid signal handler e =
      ground (arith, length-set s.signal_handlers signal handler)

  pub take_pending-IsValid : IsValid (take_pending s).2
  unfolding take_pending
  take_pending-IsValid = ground arith

  -- The handler table is read in range.
  pub take_pending_fits : (take_pending s).0.signal < length s.signal_handlers
  unfolding take_pending
  take_pending_fits = omega (
    arith,
    All-get_or SignalFits s.pending_signals s.signal_head no_signal v.known (omega arith),
    v.handlers,
  )

  -- What one round of the dispatch takes is what the abstract queue pops.
  pub take_pending_refines :
      (if s.signal_head == s.signal_tail
        then none
        else some ((take_pending s).0, waiting (take_pending s).2))
      ≡ Fifo.pop (waiting s)
  unfolding take_pending
  take_pending_refines = rw next_index-head (
      circular_pop no_signal signal_queue_capacity s.pending_signals s.signal_head s.signal_tail
        v.head v.tail)

  pub waiting_split :
      s.signal_head ≢ s.signal_tail → waiting s ≡ (take_pending s).0 ∷ waiting (take_pending s).2
  unfolding take_pending
  waiting_split ne = rw next_index-head (
      contents-pop no_signal signal_queue_capacity s.pending_signals s.signal_head s.signal_tail
        v.head v.tail ne)

-- Before the first call the static variables are zero, and `signals_init` makes them valid.
pub signals_init-IsValid :
    {H : Type 0} (s : Signals H)
    → length s.pending_signals ≡ signal_queue_capacity
    → All SignalFits s.pending_signals
    → IsValid (signals_init s) × (waiting (signals_init s) ≡ [])
unfolding signals_init
signals_init-IsValid {H} s size known = (
  record {
    handlers = length-replicate {A = Option H} max_kernel_signals none;
    size = size;
    head = omega arith;
    tail = omega arith;
    known = known;
  },
  contents_empty no_signal signal_queue_capacity s.pending_signals 0,
)

-- What one operation does, whichever it is, keeps the queue valid.
pub signals_step-IsValid :
    {H : Type 0} {s t : Signals H} (signal value context : ℕ) (handler : Option H)
    → IsValid s
    → ((schedule_signal s signal value context ≡ some t)
        ⊎ (register_signal_handler s signal handler ≡ some t)
        ⊎ (t ≡ (take_pending s).2))
    → IsValid t
signals_step-IsValid signal value context handler v (inl e) =
    schedule_signal-IsValid v signal value context e
signals_step-IsValid signal value context handler v (inr (inl e)) =
    register_signal_handler-IsValid v signal handler e
signals_step-IsValid signal value context handler v (inr (inr e)) = rw e (take_pending-IsValid v)
