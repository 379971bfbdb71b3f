-- ===== src/Process/Messages.antt =====
-- Signals queued and messages sent between processes, kernel/src/process.c, as the receiving
-- process sees them.
use mathlib.Core.Option
use kfs.Base.{
  ℕ, ◌≡◌, ◌≢◌, refl, sym, ap, subst, ◌∙◌, Bool, true, false, ◌&&◌, Option, none, some, List, [],
  ◌∷◌, ◌++◌, arith, ltb, ◌==◌, if◌then◌else◌, length, Option-cases, inl, inr,
}
use kfs.Fifo
use kfs.Process.{Process, ProcessSocket, PendingProcessSignal, Kernel, modify, update}
use kfs.Process.Links.{process_get_by_pid}
use kfs.Process.Delivery.{push_signal, queue_process_signal, store, process_signal_socket}
use kfs.Process.Sockets.{push_message, pop_message, socket_send, socket_recv, signal_message}
use kfs.Process.Queues.{
  HasQueue, HasSocket, signals, messages, push_signal_refines, push_message_refines,
  pop_message_refines,
}

signal_none :
    {p : Process} (signal value : ℕ)
    → HasQueue p
    → push_signal p signal value ≡ none
    → ltb (length (signals p)) 15 ≡ false
signal_none {p} signal value v e =
    let pending : PendingProcessSignal = record { signal = signal; value = value } in
    Fifo.push-none 15 (signals p) pending
      (sym (push_signal_refines v signal value) ∙ ap (Option.map signals) e)

signal_some :
    {p q : Process} (signal value : ℕ)
    → HasQueue p
    → push_signal p signal value ≡ some q
    → (ltb (length (signals p)) 15 ≡ true)
      × (signals q ≡ signals p ++ record { signal = signal; value = value } ∷ [])
signal_some {p} {q} signal value v e =
    let pending : PendingProcessSignal = record { signal = signal; value = value } in
    Fifo.push-some 15 (signals p) (signals q) pending
      (sym (push_signal_refines v signal value) ∙ ap (Option.map signals) e)

message_none :
    {s : ProcessSocket} (value : ℕ)
    → HasSocket s
    → push_message s value ≡ none
    → ltb (length (messages s)) 7 ≡ false
message_none {s} value v e =
    Fifo.push-none 7 (messages s) value
      (sym (push_message_refines v value) ∙ ap (Option.map messages) e)

message_some :
    {s t : ProcessSocket} (value : ℕ)
    → HasSocket s
    → push_message s value ≡ some t
    → (ltb (length (messages s)) 7 ≡ true) × (messages t ≡ messages s ++ value ∷ [])
message_some {s} {t} value v e =
    Fifo.push-some 7 (messages s) (messages t) value
      (sym (push_message_refines v value) ∙ ap (Option.map messages) e)

push_signal_socket :
    (p : Process) (signal value : ℕ) {q : Process}
    → push_signal p signal value ≡ some q
    → q.process_socket ≡ p.process_socket
unfolding push_signal
push_signal_socket p signal value e = ground arith

abbrev pub inbox : Kernel → ℕ → List ℕ
inbox k process = messages (k.process_table process).process_socket

abbrev pub signals_of : Kernel → ℕ → List PendingProcessSignal
signals_of k process = signals (k.process_table process)

update_self : (m : ℕ → Process) (at : ℕ) (p : Process) → update m at p at ≡ p
update_self m at p = ground arith

pub queue_process_signal_result :
    (k : Kernel) (process signal value : ℕ) {p : Process} {o : Option Process}
    → process ≢ 0
    → k.process_table process ≡ p
    → push_signal p signal value ≡ o
    → queue_process_signal k process signal value ≡ store k process o
unfolding queue_process_signal
queue_process_signal_result k process signal value nz e got =
    let there : (process == 0) ≡ false = ground arith in rw (there, e, got) refl

-- What `socket_send` has done to its target.
pub record Sent (k : Kernel) (target value : ℕ) (r : Bool × Kernel) : Type 0 where
  pub answer : r.0 ≡ (ltb (length (inbox k target)) 7 && ltb (length (signals_of k target)) 15)
  pub socket :
      inbox r.1 target
      ≡ (if ltb (length (inbox k target)) 7 then inbox k target ++ value ∷ [] else inbox k target)
  pub queue : signals_of r.1 target ≡ (
      if r.0
      then signals_of k target ++ record { signal = process_signal_socket; value = value } ∷ []
      else signals_of k target)

-- A message that is in the socket, by whether the signal finds room.
module _ (k : Kernel) (target value : ℕ) (s : ProcessSocket) (nz : target ≢ 0) where
  abbrev received : Process
  received = record (k.process_table target) { process_socket = s }

  abbrev stored : Kernel
  stored = modify k target (λ p. record p { process_socket = s })

  signal_message_mute :
      push_signal received process_signal_socket value ≡ none
      → signal_message k target value (some s) ≡ (false, stored)
  signal_message_mute e =
      rw
        (
          signal_message,
          queue_process_signal_result stored target process_signal_socket value nz
              (update_self k.process_table target received) e,
        )
        refl

  signal_message_heard :
      {q : Process}
      → push_signal received process_signal_socket value ≡ some q
      → signal_message k target value (some s) ≡ (true, modify stored target (λ p. q))
  signal_message_heard e =
      rw
        (
          signal_message,
          queue_process_signal_result stored target process_signal_socket value nz
              (update_self k.process_table target received) e,
        )
        refl

-- `socket_send` to a process that exists: a message is stored as long as fewer than 7 wait, and the
-- answer is success when it is and fewer than 15 signals wait, in which case PROCESS_SIGNAL_SOCKET
-- is queued with the value.
pub socket_send_lem :
    (k : Kernel) (pid value : ℕ)
    → process_get_by_pid k pid ≢ 0
    → HasQueue (k.process_table (process_get_by_pid k pid))
    → HasSocket (k.process_table (process_get_by_pid k pid)).process_socket
    → Sent k (process_get_by_pid k pid) value (socket_send k pid value)
unfolding socket_send
socket_send_lem k pid value nz q v =
    let target = process_get_by_pid k pid in
    let p = k.process_table target in
    let there : (target == 0) ≡ false = ground arith in
    elim (Option-cases (push_message p.process_socket value)) [
      | inl full ↦
          let result : socket_send k pid value ≡ (false, k) = rw (there, full) refl in
          let closed = message_none value v full in
          subst (Sent k target value) (sym result)
            (record { answer = rw closed refl; socket = rw closed refl; queue = refl })
      | inr (s, got) ↦
          let there' : HasQueue (received k target value s nz) = record {
            size = q.size;
            head = q.head;
            tail = q.tail;
          } in
          let (room, longer) = message_some value v got in
          let sock =
            ap (λ r. messages r.process_socket)
              (update_self k.process_table target (received k target value s nz)) in
          elim (Option-cases
            (push_signal (received k target value s nz) process_signal_socket value)) [
              | inl mute ↦
                  let alone = signal_none process_signal_socket value there' mute in
                  let result : socket_send k pid value ≡ (false, stored k target value s nz) =
                    rw (there, got) (signal_message_mute k target value s nz mute) in
                  subst (Sent k target value) (sym result) (record {
                    answer = rw (room, alone) refl;
                    socket = rw room (sock ∙ longer);
                    queue =
                        ap signals
                          (update_self k.process_table target (received k target value s nz));
                  })
              | inr (t, sent) ↦
                  let (heard, more) = signal_some process_signal_socket value there' sent in
                  let result : socket_send k pid value
                      ≡ (true, modify (stored k target value s nz) target (λ r. t)) =
                    rw (there, got) (signal_message_heard k target value s nz sent) in
                  subst (Sent k target value) (sym result) (record {
                    answer = rw (room, heard) refl;
                    socket = rw room (
                        ap (λ r. messages r.process_socket)
                          (update_self (stored k target value s nz).process_table target t)
                        ∙ ap messages (
                            push_signal_socket (received k target value s nz) process_signal_socket
                              value sent)
                        ∙ longer);
                    queue =
                        ap signals (update_self (stored k target value s nz).process_table target t)
                        ∙ more;
                  })
            ]
    ]

-- `socket_recv` is the pop of the abstract queue: it gives the oldest message and leaves the
-- others, and fails when no message waits.
pub socket_recv_lem :
    (k : Kernel) (process : ℕ)
    → process ≢ 0
    → HasSocket (k.process_table process).process_socket
    → Option.map (λ r. (r.0, inbox r.1 process)) (socket_recv k process)
      ≡ Fifo.pop (inbox k process)
unfolding socket_recv
socket_recv_lem k process nz v =
    let p = k.process_table process in
    let there : (process == 0) ≡ false = ground arith in
    elim (Option-cases (pop_message p.process_socket)) [
      | inl empty ↦
          rw (there, empty)
            (ap (Option.map (λ r. (r.0, messages r.1))) (sym empty) ∙ pop_message_refines v)
      | inr ((value, s), got) ↦
          let taken : Process = record p { process_socket = s; last_socket_value = value } in
          rw (there, got)
            (ap (λ r. some (value, messages r.process_socket))
                (update_self k.process_table process taken)
              ∙ ap (Option.map (λ r. (r.0, messages r.1))) (sym got)
              ∙ pop_message_refines v)
    ]
