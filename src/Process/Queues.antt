-- ===== src/Process/Queues.antt =====
-- The signal queue and the socket of a process, kernel/src/process.c, against the abstract queue
-- of at most 15 signals and of at most 7 messages.
use mathlib.Core.Option
use kfs.Base.{
  ℕ, ◌+◌, ◌%◌, ◌<◌, ◌≡◌, none, some, List, arith, ◌==◌, if◌then◌else◌, length, length-set,
}
use kfs.Base.Circular.{contents, next_index}
use kfs.Fifo
use kfs.Fifo.Refine.{circular_push, circular_pop, map_unless}
use kfs.Process.{
  Process, ProcessSocket, PendingProcessSignal, no_signal, process_signal_queue_capacity,
  process_socket_capacity,
}
use kfs.Process.Delivery.{push_signal, take_signal}
use kfs.Process.Sockets.{push_message, pop_message}

-- The array has its size and the indices lie inside.
pub record HasQueue (p : Process) : Type 0 where
  pub size : length p.pending_process_signals ≡ process_signal_queue_capacity
  pub head : p.signal_head < process_signal_queue_capacity
  pub tail : p.signal_tail < process_signal_queue_capacity

pub record HasSocket (s : ProcessSocket) : Type 0 where
  pub size : length s.values ≡ process_socket_capacity
  pub head : s.head < process_socket_capacity
  pub tail : s.tail < process_socket_capacity

-- The signals and the messages that wait, oldest first.
abbrev pub signals : Process → List PendingProcessSignal
signals p =
    contents no_signal process_signal_queue_capacity p.pending_process_signals p.signal_head
      p.signal_tail

abbrev pub messages : ProcessSocket → List ℕ
messages s = contents 0 process_socket_capacity s.values s.head s.tail

module _ {p : Process} (v : HasQueue p) where
  next_index-tail :
      (p.signal_tail + 1) % process_signal_queue_capacity
      ≡ next_index process_signal_queue_capacity p.signal_tail
  next_index-tail = ground (arith, v.tail)

  next_index-head :
      (p.signal_head + 1) % process_signal_queue_capacity
      ≡ next_index process_signal_queue_capacity p.signal_head
  next_index-head = ground (arith, v.head)

  pub push_signal_refines :
      (signal value : ℕ)
      → Option.map signals (push_signal p signal value)
        ≡ Fifo.push 15 (signals p) (record { signal = signal; value = value })
  unfolding push_signal
  push_signal_refines signal value =
      let pending : PendingProcessSignal = record { signal = signal; value = value } in
      rw (next_index-tail, map_unless)
        (circular_push no_signal process_signal_queue_capacity p.pending_process_signals
          p.signal_head p.signal_tail v.head v.tail pending (omega (arith, v.size)))

  pub push_signal-HasQueue :
      (signal value : ℕ) {q : Process} → push_signal p signal value ≡ some q → HasQueue q
  unfolding push_signal
  push_signal-HasQueue signal value e =
      let pending : PendingProcessSignal = record { signal = signal; value = value } in
      ground
        (arith, v.size, v.head, v.tail, length-set p.pending_process_signals p.signal_tail pending)

  pub take_signal-HasQueue : HasQueue (take_signal p).1
  unfolding take_signal
  take_signal-HasQueue = ground (arith, v.size, v.tail)

  pub take_signal_refines :
      (if p.signal_head == p.signal_tail
        then none
        else some ((take_signal p).0, signals (take_signal p).1))
      ≡ Fifo.pop (signals p)
  unfolding take_signal
  take_signal_refines = rw next_index-head (
      circular_pop no_signal process_signal_queue_capacity p.pending_process_signals p.signal_head
        p.signal_tail v.head v.tail)

module _ {s : ProcessSocket} (v : HasSocket s) where
  next_index-socket_tail :
      (s.tail + 1) % process_socket_capacity ≡ next_index process_socket_capacity s.tail
  next_index-socket_tail = ground (arith, v.tail)

  next_index-socket_head :
      (s.head + 1) % process_socket_capacity ≡ next_index process_socket_capacity s.head
  next_index-socket_head = ground (arith, v.head)

  pub push_message_refines :
      (value : ℕ) → Option.map messages (push_message s value) ≡ Fifo.push 7 (messages s) value
  unfolding push_message
  push_message_refines value =
      rw (next_index-socket_tail, map_unless)
        (circular_push 0 process_socket_capacity s.values s.head s.tail v.head v.tail value
          (omega (arith, v.size)))

  pub push_message-HasSocket :
      (value : ℕ) {t : ProcessSocket} → push_message s value ≡ some t → HasSocket t
  unfolding push_message
  push_message-HasSocket value e =
      ground (arith, v.size, v.head, v.tail, length-set s.values s.tail value)

  pub pop_message_refines :
      Option.map (λ r. (r.0, messages r.1)) (pop_message s) ≡ Fifo.pop (messages s)
  unfolding pop_message
  pop_message_refines =
      rw (next_index-socket_head, map_unless)
        (circular_pop 0 process_socket_capacity s.values s.head s.tail v.head v.tail)
