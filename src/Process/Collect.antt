-- ===== src/Process/Collect.antt =====
-- A wait, the end of the child, and a second wait, kernel/src/process.c.
use kfs.Base.{
  ℕ, ◌≡◌, ◌≢◌, refl, sym, ap, subst, ◌∙◌, true, false, not, ◌&&◌, ◌||◌, arith, ◌==◌, ==_iff,
}
use kfs.Process.{ready, waiting, Kernel, is_zombie, modify}
use kfs.Process.Links.{process_get_by_pid}
use kfs.Process.Delivery.{process_exit, waits_for}
use kfs.Process.Lifecycle.{process_wait, process_release, stop_waiting, still_running, reaped}
use kfs.Process.Find.{has_pid, process_get_by_pid-same, process_get_by_pid-has_pid}
use kfs.Process.Table.{==_apart, ==_self, or_true}
use kfs.Process.Wait.{process_exit_alive, process_exit_lem, after_exit, wakes, ended, woken}
use kfs.Process.Protocol.{
  process_release-unused, process_wait_running, process_wait_ended, stop_waiting_awake,
  begin_wait_given, waiting_for_lem, waiting_for-identity, process_exit-identity, wake_parent-head,
  told, asleep, waiting_for,
}

-- The states after the first wait and after the child's end.
abbrev exited : Kernel → ℕ → ℕ → ℕ → ℕ → Kernel
exited k parent child pid exit_code = process_exit (waiting_for k parent pid) child exit_code

-- What the two processes have done after a wait, the child's end, and a second wait.
pub record Collected (k : Kernel) (parent child pid exit_code : ℕ) : Type 0 where
  pub first_wait : process_wait k parent pid ≡ still_running (waiting_for k parent pid)
  pub sleeps : ((waiting_for k parent pid).process_table parent).status ≡ waiting
  pub wakes_up : ((exited k parent child pid exit_code).process_table parent).status ≡ ready
  pub second_wait :
      process_wait (exited k parent child pid exit_code) parent pid
      ≡ reaped exit_code (process_release (exited k parent child pid exit_code) child)
  pub slot_free :
      let released = process_release (exited k parent child pid exit_code) child in
      (released.process_table child).used ≡ false

module _ (k : Kernel) (parent child pid exit_code : ℕ) (found : process_get_by_pid k pid ≡ child)
    (nz : child ≢ 0) (nk : child ≢ k.kernel_process) (pz : parent ≢ 0)
    (pk : parent ≢ k.kernel_process) (apart : child ≢ parent)
    (its : (k.process_table child).parent ≡ parent)
    (alive : is_zombie (k.process_table child).status ≡ false) where
  abbrev k1 : Kernel
  k1 = waiting_for k parent pid

  abbrev k2 : Kernel
  k2 = exited k parent child pid exit_code

  child_kept : k1.process_table child ≡ k.process_table child
  child_kept = waiting_for_lem k parent pid child ∙ rw (==_apart child parent apart) refl

  parent_told : k1.process_table parent ≡ asleep (told pid (k.process_table parent))
  parent_told = waiting_for_lem k parent pid parent ∙ rw (==_self parent) refl

  its_kept : (k1.process_table child).parent ≡ parent
  its_kept = ap (λ p. p.parent) child_kept ∙ its

  alive_kept : is_zombie (k1.process_table child).status ≡ false
  alive_kept = ap (λ p. is_zombie p.status) child_kept ∙ alive

  pid_kept : (pid == (k1.process_table child).pid) ≡ true
  pid_kept =
      let known : has_pid (k.process_table child) pid ≡ true =
        subst (λ c. has_pid (k.process_table c) pid ≡ true) found
          (process_get_by_pid-has_pid k pid (λ e. nz (sym found ∙ e))) in
      ap (λ p. pid == p.pid) child_kept ∙ ground (arith, known)

  wakes_parent : wakes k1 child ≡ true
  wakes_parent =
      let there : (parent == 0) ≡ false = ==_apart parent 0 pz in
      let told_it : waits_for (k1.process_table parent) (k1.process_table child).pid ≡ true =
        ap (λ p. waits_for p (k1.process_table child).pid) parent_told
        ∙ ap (λ b. pid == 0 || b) pid_kept
        ∙ or_true (pid == 0) in
      ap (λ q. not (q == 0) && waits_for (k1.process_table q) (k1.process_table child).pid) its_kept
      ∙ rw (there, told_it) refl

  exited_lem : (a : ℕ) → k2.process_table a ≡ after_exit k1 child exit_code a
  exited_lem a =
      process_exit_lem k1 child exit_code a nz nk alive_kept (λ e. apart (sym e ∙ its_kept))

  child_ended : k2.process_table child ≡ ended (k1.process_table child) exit_code
  child_ended = exited_lem child ∙ rw (==_self child) refl

  parent_woken : k2.process_table parent ≡ woken (k1.process_table parent)
  parent_woken =
      let is_its : (parent == (k1.process_table child).parent) ≡ true =
        (==_iff parent (k1.process_table child).parent).1 (sym its_kept) in
      exited_lem parent ∙ rw (==_apart parent child (λ e. apart (sym e)), is_its, wakes_parent) refl

  found_again : process_get_by_pid k2 pid ≡ child
  found_again =
      process_get_by_pid-same k k2 pid
        (ap (λ q. q.process_head) (process_exit_alive k1 child exit_code nz nk alive_kept)
          ∙ (wake_parent-head (modify k1 child (λ q. ended q exit_code))
              (k1.process_table child).parent (k1.process_table child).pid).0)
        (λ a.
          process_exit-identity k1 child exit_code nz nk alive_kept a
          ∙ waiting_for-identity k parent pid a)
      ∙ found

  kernel_kept : k2.kernel_process ≡ k.kernel_process
  kernel_kept =
      let p = k1.process_table child in
      ap (λ q. q.kernel_process) (process_exit_alive k1 child exit_code nz nk alive_kept)
      ∙ (wake_parent-head (modify k1 child (λ q. ended q exit_code)) p.parent p.pid).1

  -- For a child that runs and its parent, neither of them the kernel's process: `process_wait`
  -- answers that the child runs, and the parent sleeps; the child's `process_exit` makes the parent
  -- ready; and a second `process_wait` gives the exit code and frees the child's slot.
  pub process_wait_lem : Collected k parent child pid exit_code
  process_wait_lem = record {
    first_wait =
        process_wait_running k parent pid child found nz its alive
        ∙ ap still_running (begin_wait_given k parent pid pz pk);
    sleeps = ap (λ p. p.status) parent_told;
    wakes_up = ap (λ p. p.status) parent_woken;
    second_wait =
        process_wait_ended k2 parent pid child found_again nz
          (ap (λ p. p.parent) child_ended ∙ its_kept) (ap (λ p. is_zombie p.status) child_ended)
        ∙ ap (λ c. reaped c (process_release (stop_waiting k2 parent) child))
            (ap (λ p. p.exit_code) child_ended)
        ∙ ap (λ q. reaped exit_code (process_release q child))
            (stop_waiting_awake k2 parent (ap (λ p. p.status) parent_woken));
    slot_free = process_release-unused k2 child nz (λ e. nk (e ∙ kernel_kept));
  }
