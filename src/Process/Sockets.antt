-- ===== src/Process/Sockets.antt =====
-- The sockets, kernel/src/process.c: a circular buffer of messages in each process.
use kfs.Base.{
  ℕ, ◌+◌, ◌-◌, ◌%◌, Bool, true, false, Option, none, some, leb, ◌==◌, if◌then◌else◌, get_or, set,
}
use kfs.Process.{ProcessSocket, Kernel, process_socket_capacity, modify}
use kfs.Process.Links.{process_get_by_pid}
use kfs.Process.Delivery.{process_signal_socket, queue_process_signal}

abbrev pub no_messages : ProcessSocket → ProcessSocket
no_messages s = record s { head = 0; tail = 0 }

unfoldable pub socket_create : Kernel → ℕ → Option Kernel
socket_create k process =
    if process == 0
    then none
    else some (modify k process (λ p. record p { process_socket = no_messages p.process_socket }))

-- On a socket: `none` is a full one.
unfoldable pub push_message : ProcessSocket → ℕ → Option ProcessSocket
push_message s value =
    let next_tail = (s.tail + 1) % process_socket_capacity in
    if next_tail == s.head
    then none
    else some (record s { values = set s.values s.tail value; tail = next_tail })

-- Whether the call succeeds, and the state: a message stays in the socket when the signal that
-- goes with it finds no room.
abbrev pub signal_message : Kernel → ℕ → ℕ → Option ProcessSocket → Bool × Kernel
signal_message k target value none = (false, k)
signal_message k target value (some s) =
    let stored = modify k target (λ p. record p { process_socket = s }) in
    elim (queue_process_signal stored target process_signal_socket value) [
      | none ↦ (false, stored)
      | some q ↦ (true, q)
    ]

unfoldable pub socket_send : Kernel → ℕ → ℕ → Bool × Kernel
unfolding push_message
socket_send k pid value =
    let target = process_get_by_pid k pid in
    if target == 0
    then (false, k)
    else signal_message k target value (push_message (k.process_table target).process_socket value)

unfoldable pub pop_message : ProcessSocket → Option (ℕ × ProcessSocket)
pop_message s =
    if s.head == s.tail
    then none
    else some (get_or s.values s.head 0, record s { head = (s.head + 1) % process_socket_capacity })

-- The value that the caller's variable gets, and the state.
unfoldable pub socket_recv : Kernel → ℕ → Option (ℕ × Kernel)
unfolding pop_message
socket_recv k process =
    let p = k.process_table process in
    if process == 0 then none else elim (pop_message p.process_socket) [
      | none ↦ none
      | some (value, s) ↦ some (
        value,
        modify k process (λ q. record q { process_socket = s; last_socket_value = value }),
      )
    ]

unfoldable pub process_socket_pending_count : Kernel → ℕ → ℕ
process_socket_pending_count k process =
    let s = (k.process_table process).process_socket in
    if process == 0
    then 0
    else if leb s.head s.tail
    then s.tail - s.head
    else process_socket_capacity - s.head + s.tail
