-- ===== src/Process/Moves.antt =====
-- The operations of kernel/src/process.c that leave the list of all processes alone.
use kfs.Base.{
  ℕ, ◌≡◌, refl, sym, ap, subst, Bool, true, false, not, ◌&&◌, ◌||◌, ◌==◌, if◌then◌else◌, Option,
  none, some, arith, Bool-cases, Option-cases, inl, inr, add32,
}
use kfs.Process.{
  Process, ProcessSocket, Kernel, ready, waiting, thread, is_zombie, is_waiting, is_run, modify,
}
use kfs.Process.Links.{process_get_by_pid}
use kfs.Process.Delivery.{
  process_exit, wake_parent, waits_for, push_signal, queue_process_signal, process_signal_socket,
}
use kfs.Process.Sockets.{push_message, signal_message, socket_send}
use kfs.Process.Lifecycle.{begin_wait, stop_waiting}
use kfs.Process.Scheduler.{process_yield}
use kfs.Process.Find.{identity}
use kfs.Process.Same.{update-Kept}
use kfs.Process.MapSame.{Same, Same-trans, modify-Same}
use kfs.Process.Wait.{ended}

pub Same-refl : (k : Kernel) → Same k k
Same-refl k = record { table = λ a. refl; head = refl; kernel = refl; cursor = refl }

-- One of two changes.
pub choose-Same :
    {k : Kernel} (c : Bool) (x y : Kernel) → Same k x → Same k y → Same k (if c then x else y)
choose-Same true x y s t = s
choose-Same false x y s t = t

wake_parent-Same : (k : Kernel) (parent pid : ℕ) → Same k (wake_parent k parent pid)
unfolding wake_parent
wake_parent-Same k parent pid =
    choose-Same (not (parent == 0) && waits_for (k.process_table parent) pid)
      (modify k parent (λ q. record q { status = ready })) k
      (modify-Same k parent (λ q. record q { status = ready }) (λ q. refl)) (Same-refl k)

pub process_exit-Same :
    (k : Kernel) (process exit_code : ℕ) → Same k (process_exit k process exit_code)
unfolding process_exit
process_exit-Same k process exit_code =
    let p = k.process_table process in
    let k' = modify k process (λ q. ended q exit_code) in
    choose-Same (process == 0 || process == k.kernel_process) k
      (if is_zombie p.status then k else wake_parent k' p.parent p.pid) (Same-refl k)
      (choose-Same (is_zombie p.status) k (wake_parent k' p.parent p.pid) (Same-refl k) (
        Same-trans (modify-Same k process (λ q. ended q exit_code) (λ q. refl))
          (wake_parent-Same k' p.parent p.pid)))

pub stop_waiting-Same : (k : Kernel) (parent : ℕ) → Same k (stop_waiting k parent)
stop_waiting-Same k parent =
    choose-Same (not (parent == 0) && is_waiting (k.process_table parent).status)
      (modify k parent (λ p. record p { status = thread })) k
      (modify-Same k parent (λ p. record p { status = thread }) (λ p. refl)) (Same-refl k)

pub begin_wait-Same : (k : Kernel) (parent pid : ℕ) → Same k (begin_wait k parent pid)
begin_wait-Same k parent pid =
    let told = modify k parent (λ p. record p { wait_target_pid = pid }) in
    let tell = modify-Same k parent (λ p. record p { wait_target_pid = pid }) (λ p. refl) in
    let slept = modify told parent (λ p. record p { status = waiting }) in
    choose-Same (parent == 0) k (if parent == k.kernel_process then told else slept) (Same-refl k) (
      choose-Same (parent == k.kernel_process) told slept tell (
        Same-trans tell (modify-Same told parent (λ p. record p { status = waiting }) (λ p. refl))))

-- What holds of the state that an operation may give.
unfoldable pub OnSome : (Kernel → Type 0) → Option Kernel → Type 0
OnSome P none = Unit
OnSome P (some k) = P k

push_signal-identity :
    (p : Process) (signal value : ℕ) {q : Process}
    → push_signal p signal value ≡ some q
    → identity q ≡ identity p
unfolding push_signal
push_signal-identity p signal value e = ground arith

-- A record that takes the place of another.
pub stored-Same :
    (k : Kernel) (at : ℕ) (p : Process)
    → identity p ≡ identity (k.process_table at)
    → Same k (modify k at (λ q. p))
stored-Same k at p e = record {
  table = update-Kept k.process_table at p e;
  head = refl;
  kernel = refl;
  cursor = refl;
}

pub queue_process_signal-Same :
    (k : Kernel) (process signal value : ℕ)
    → OnSome (Same k) (queue_process_signal k process signal value)
unfolding queue_process_signal OnSome
queue_process_signal-Same k process signal value = elim (Bool-cases (process == 0)) [
  | inl nothing ↦ rw nothing tt
  | inr given ↦ elim (Option-cases (push_signal (k.process_table process) signal value)) [
    | inl full ↦ rw (given, full) tt
    | inr (p, got) ↦
        rw (given, got)
          (stored-Same k process p
            (push_signal-identity (k.process_table process) signal value got))
  ]
]

abbrev heard : Kernel → Option Kernel → Bool × Kernel
heard k none = (false, k)
heard k (some q) = (true, q)

signal_message-Same :
    (k : Kernel) (target value : ℕ) (o : Option ProcessSocket)
    → Same k (signal_message k target value o).1
unfolding OnSome
signal_message-Same k target value none = Same-refl k
signal_message-Same k target value (some s) =
    let stored = modify k target (λ p. record p { process_socket = s }) in
    let keep = modify-Same k target (λ p. record p { process_socket = s }) (λ p. refl) in
    let queued = queue_process_signal stored target process_signal_socket value in
    let after = queue_process_signal-Same stored target process_signal_socket value in
    elim (Option-cases queued) [
      | inl mute ↦ subst (Same k) (sym (ap (λ o. (heard stored o).1) mute)) keep
      | inr (q, sent) ↦
          subst (Same k) (sym (ap (λ o. (heard stored o).1) sent))
            (Same-trans keep (subst (OnSome (Same stored)) sent after))
    ]

pub socket_send-Same : (k : Kernel) (pid value : ℕ) → Same k (socket_send k pid value).1
unfolding socket_send
socket_send-Same k pid value =
    let target = process_get_by_pid k pid in
    elim (target == 0)
      as (λ b.
        Same k
          (if b
            then (false, k)
            else signal_message k target value
                (push_message (k.process_table target).process_socket value)).1) [
                  | true ↦ Same-refl k
                  | false ↦
                      signal_message-Same k target value
                        (push_message (k.process_table target).process_socket value)
                ]

pub process_yield-Same : (k : Kernel) → Same k (process_yield k)
unfolding process_yield
process_yield-Same k =
    let process = k.current_process in
    let p = k.process_table process in
    let status = if is_run p.status then ready else p.status in
    let counted = record k { total_context_switches = add32 k.total_context_switches 1 } in
    let stop : Process → Process =
      λ q. record q { status = status; switch_count = add32 q.switch_count 1 } in
    choose-Same (process == 0 || process == k.kernel_process) k (modify counted process stop)
      (Same-refl k)
      (Same-trans (record { table = λ a. refl; head = refl; kernel = refl; cursor = refl })
        (modify-Same counted process stop (λ q. refl)))
