-- ===== src/Process/Protocol.antt =====
-- A parent that waits and a child that ends, kernel/src/process.c.
use kfs.Base.{
  ℕ, ◌≡◌, ◌≢◌, refl, ap, ◌∙◌, true, false, not, ◌&&◌, ◌||◌, arith, ◌==◌, if◌then◌else◌, Bool-cases,
  inl, inr,
}
use kfs.Process.{Process, ready, waiting, Kernel, no_process, is_zombie, is_waiting, modify}
use kfs.Process.Links.{process_get_by_pid, process_unlink_child, process_unlink_global}
use kfs.Process.Memory.{process_release_memory}
use kfs.Process.Delivery.{process_exit, wake_parent, waits_for}
use kfs.Process.Lifecycle.{
  process_wait, process_release, begin_wait, stop_waiting, still_running, reaped,
}
use kfs.Process.Find.{identity}
use kfs.Process.Table.{modify_lem, update_self, and_false}
use kfs.Process.Wait.{process_exit_alive, wake_parent_lem, ended}

-- A change that keeps what a search looks at.
pub modify-identity :
    (k : Kernel) (at : ℕ) (f : Process → Process)
    → ((p : Process) → identity (f p) ≡ identity p)
    → (a : ℕ) → identity ((modify k at f).process_table a) ≡ identity (k.process_table a)
modify-identity k at f same a =
    ap identity (modify_lem k at f a)
    ∙ elim (Bool-cases (a == at)) [ inl e ↦ rw e (same (k.process_table a)) | inr ne ↦ rw ne refl ]

pub wake_parent-identity :
    (k : Kernel) (parent pid a : ℕ)
    → identity ((wake_parent k parent pid).process_table a) ≡ identity (k.process_table a)
wake_parent-identity k parent pid a =
    ap identity (wake_parent_lem k parent pid a)
    ∙ elim (Bool-cases
        (a == parent && (not (parent == 0) && waits_for (k.process_table parent) pid))) [
          | inl awake ↦ rw awake refl
          | inr asleep ↦ rw asleep refl
        ]

pub wake_parent-head :
    (k : Kernel) (parent pid : ℕ)
    → ((wake_parent k parent pid).process_head ≡ k.process_head)
      × ((wake_parent k parent pid).kernel_process ≡ k.kernel_process)
unfolding wake_parent
wake_parent-head k parent pid =
    elim (Bool-cases (not (parent == 0) && waits_for (k.process_table parent) pid)) [
      | inl awake ↦ rw awake (refl, refl)
      | inr asleep ↦ rw asleep (refl, refl)
    ]

-- A parent that begins to wait.
abbrev pub told : ℕ → Process → Process
told pid p = record p { wait_target_pid = pid }

abbrev pub asleep : Process → Process
asleep p = record p { status = waiting }

abbrev pub waiting_for : Kernel → ℕ → ℕ → Kernel
waiting_for k parent pid = modify (modify k parent (told pid)) parent asleep

pub begin_wait_given :
    (k : Kernel) (parent pid : ℕ)
    → parent ≢ 0
    → parent ≢ k.kernel_process
    → begin_wait k parent pid ≡ waiting_for k parent pid
begin_wait_given k parent pid nz nk =
    let there : (parent == 0) ≡ false = ground arith in
    let user : (parent == k.kernel_process) ≡ false = ground arith in rw (there, user) refl

pub waiting_for_lem :
    (k : Kernel) (parent pid a : ℕ)
    → (waiting_for k parent pid).process_table a
      ≡ (if a == parent then asleep (told pid (k.process_table a)) else k.process_table a)
waiting_for_lem k parent pid a =
    modify_lem (modify k parent (told pid)) parent asleep a
    ∙ ap (λ x. if a == parent then asleep x else x) (modify_lem k parent (told pid) a)
    ∙ elim (Bool-cases (a == parent)) [ inl e ↦ rw e refl | inr ne ↦ rw ne refl ]

pub waiting_for-identity :
    (k : Kernel) (parent pid a : ℕ)
    → identity ((waiting_for k parent pid).process_table a) ≡ identity (k.process_table a)
waiting_for-identity k parent pid a =
    ap identity (waiting_for_lem k parent pid a)
    ∙ elim (Bool-cases (a == parent)) [ inl e ↦ rw e refl | inr ne ↦ rw ne refl ]

pub process_exit-identity :
    (k : Kernel) (process exit_code : ℕ)
    → process ≢ 0
    → process ≢ k.kernel_process
    → is_zombie (k.process_table process).status ≡ false
    → (a : ℕ)
    → identity ((process_exit k process exit_code).process_table a) ≡ identity (k.process_table a)
process_exit-identity k process exit_code nz nk alive a =
    let p = k.process_table process in
    ap (λ q. identity (q.process_table a)) (process_exit_alive k process exit_code nz nk alive)
    ∙ wake_parent-identity (modify k process (λ q. ended q exit_code)) p.parent p.pid a
    ∙ modify-identity k process (λ q. ended q exit_code) (λ q. refl) a

pub process_release-unused :
    (k : Kernel) (process : ℕ)
    → process ≢ 0
    → process ≢ k.kernel_process
    → ((process_release k process).process_table process).used ≡ false
unfolding process_release
process_release-unused k process nz nk =
    let given : (process == 0 || process == k.kernel_process) ≡ false = ground arith in
    let cursor = if k.scheduler_cursor == process then k.process_head else k.scheduler_cursor in
    let released = process_release_memory (record k { scheduler_cursor = cursor }) process in
    let orphaned = process_unlink_child released.process_table process in
    let table = (process_unlink_global (released.process_head, orphaned) process).1 in
    rw given (ap (λ p. p.used) (update_self table process no_process))

-- What `process_wait` answers for a child.
pub process_wait_running :
    (k : Kernel) (parent pid child : ℕ)
    → process_get_by_pid k pid ≡ child
    → child ≢ 0
    → (k.process_table child).parent ≡ parent
    → is_zombie (k.process_table child).status ≡ false
    → process_wait k parent pid ≡ still_running (begin_wait k parent pid)
unfolding process_wait
process_wait_running k parent pid child found nz its alive =
    let given : (child == 0
          || (not (parent == k.kernel_process) && not ((k.process_table child).parent == parent)))
        ≡ false =
      ground (arith, its) in
    rw (found, given, alive) refl

pub process_wait_ended :
    (k : Kernel) (parent pid child : ℕ)
    → process_get_by_pid k pid ≡ child
    → child ≢ 0
    → (k.process_table child).parent ≡ parent
    → is_zombie (k.process_table child).status ≡ true
    → process_wait k parent pid
      ≡ reaped (k.process_table child).exit_code (process_release (stop_waiting k parent) child)
unfolding process_wait
process_wait_ended k parent pid child found nz its dead =
    let given : (child == 0
          || (not (parent == k.kernel_process) && not ((k.process_table child).parent == parent)))
        ≡ false =
      ground (arith, its) in
    rw (found, given, dead) refl

pub stop_waiting_awake :
    (k : Kernel) (parent : ℕ) → (k.process_table parent).status ≡ ready → stop_waiting k parent ≡ k
stop_waiting_awake k parent e =
    let awake : (not (parent == 0) && is_waiting (k.process_table parent).status) ≡ false =
      ap (λ s. not (parent == 0) && is_waiting s) e ∙ and_false (not (parent == 0)) in
    rw awake refl
