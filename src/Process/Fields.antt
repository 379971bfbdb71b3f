-- ===== src/Process/Fields.antt =====
-- Operations and statements of kernel/src/process.c that write fields other than the links: they
-- leave the list of all processes alone.
use kfs.Base.{ℕ, refl, true, false, ◌==◌, if◌then◌else◌, none, some}
use kfs.Paging.{Paging, paging_switch_directory}
use kfs.Process.{Process, Kernel, SignalHandler, no_handler, default_handler, modify}
use kfs.Process.Delivery.{process_signal, take_signal, without_signal}
use kfs.Process.Sockets.{socket_create, no_messages}
use kfs.Process.Lifecycle.{copy_pages, copy_fields}
use kfs.Process.Scheduler.{process_switch_to_kernel_space}
use kfs.Process.MapSame.{Same, Same-trans, modify-Same, repaged}
use kfs.Process.Moves.{Same-refl, choose-Same, stored-Same, OnSome}
use kfs.Process.Turns.{take_signal-identity}
use kfs.Process.Steps.{worked}

pub process_signal-Same :
    (k : Kernel) (process : ℕ) (handler : SignalHandler)
    → OnSome (Same k) (process_signal k process handler)
unfolding process_signal OnSome
process_signal-Same k process handler =
    let h : SignalHandler = elim handler [ no_handler ↦ default_handler | h ↦ h ] in
    elim (process == 0)
      as (λ b.
        OnSome (Same k)
          (if b then none else some (modify k process (λ p. record p { signal_handler = h })))) [
            | true ↦ tt
            | false ↦ modify-Same k process (λ p. record p { signal_handler = h }) (λ p. refl)
          ]

pub socket_create-Same : (k : Kernel) (process : ℕ) → OnSome (Same k) (socket_create k process)
unfolding socket_create OnSome
socket_create-Same k process =
    let emptied : Process → Process =
      λ p. record p { process_socket = no_messages p.process_socket } in
    elim (process == 0)
      as (λ b. OnSome (Same k) (if b then none else some (modify k process emptied))) [
        | true ↦ tt
        | false ↦ modify-Same k process emptied (λ p. refl)
      ]

pub without_signal-Same : (k : Kernel) (process : ℕ) → Same k (without_signal k process)
without_signal-Same k process =
    stored-Same k process (take_signal (k.process_table process)).1
      (take_signal-identity (k.process_table process))

pub worked-Same :
    (k : Kernel) (process arg0 arg1 state value : ℕ)
    → Same k (worked k process arg0 arg1 state value)
worked-Same k process arg0 arg1 state value =
    modify-Same k process
      (λ p. record p {
        runtime_arg0 = arg0;
        runtime_arg1 = arg1;
        runtime_state = state;
        runtime_value = value;
      })
      (λ p. refl)

pub process_switch_to_kernel_space-Same : (k : Kernel) → Same k (process_switch_to_kernel_space k)
unfolding process_switch_to_kernel_space
process_switch_to_kernel_space-Same k =
    let directory = (k.process_table k.kernel_process).memory.process_page_directory in
    let paging = paging_switch_directory k.paging directory in
    choose-Same (k.kernel_process == 0) k (record k { paging = paging }) (Same-refl k)
      (repaged k paging)

-- What is copied to a child is not on the list.
module _ (directories bootstrap : ℕ) where
  pub copied-Same :
      (k : Kernel) (child : ℕ) (p : Process)
      → let memory =
          copy_pages directories bootstrap k.paging.memory p.memory
            (k.process_table child).memory in
        Same k (
          modify
            (record k { paging = record k.paging { memory = memory } })
            child
            (copy_fields directories bootstrap p))
  copied-Same k child p =
      let memory =
        copy_pages directories bootstrap k.paging.memory p.memory (k.process_table child).memory in
      let paging : Paging = record k.paging { memory = memory } in
      Same-trans (repaged k paging) (
        modify-Same (record k { paging = paging }) child (copy_fields directories bootstrap p)
          (λ q. refl))
