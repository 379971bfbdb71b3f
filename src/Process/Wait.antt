-- ===== src/Process/Wait.antt =====
-- The end of a process and the wait for it, kernel/src/process.c.
use kfs.Base.{
  ℕ, ◌≡◌, ◌≢◌, refl, sym, ap, ◌∙◌, Bool, false, not, ◌&&◌, ◌||◌, arith, ◌==◌, if◌then◌else◌,
  Bool-cases, inl, inr,
}
use kfs.Process.{Process, ready, zombie, Kernel, is_zombie, modify}
use kfs.Process.Delivery.{process_exit, wake_parent, waits_for}
use kfs.Process.Table.{modify_lem, update_other, ==_self, and_true, and_false}

abbrev pub ended : Process → ℕ → Process
ended p exit_code = record p { exit_code = exit_code; status = zombie }

abbrev pub woken : Process → Process
woken p = record p { status = ready }

-- Whether the end of a process wakes its parent.
abbrev pub wakes : Kernel → ℕ → Bool
wakes k process =
    let p = k.process_table process in
    not (p.parent == 0) && waits_for (k.process_table p.parent) p.pid

-- The records after the end of a process.
abbrev pub after_exit : Kernel → ℕ → ℕ → ℕ → Process
after_exit k process exit_code a =
    if a == process
    then ended (k.process_table a) exit_code
    else if a == (k.process_table process).parent && wakes k process
    then woken (k.process_table a)
    else k.process_table a

pub after_exit_self :
    (k : Kernel) (process exit_code : ℕ)
    → after_exit k process exit_code process ≡ ended (k.process_table process) exit_code
after_exit_self k process exit_code = rw (==_self process) refl

pub wake_parent_lem :
    (k : Kernel) (parent pid a : ℕ)
    → (wake_parent k parent pid).process_table a ≡ (
        if a == parent && (not (parent == 0) && waits_for (k.process_table parent) pid)
        then woken (k.process_table a)
        else k.process_table a)
unfolding wake_parent
wake_parent_lem k parent pid a =
    let pick : Bool → Process = λ b. if b then woken (k.process_table a) else k.process_table a in
    elim (Bool-cases (not (parent == 0) && waits_for (k.process_table parent) pid)) [
      | inl awake ↦ rw awake (modify_lem k parent woken a ∙ ap pick (sym (and_true (a == parent))))
      | inr asleep ↦ rw asleep (ap pick (sym (and_false (a == parent))))
    ]

pub process_exit_alive :
    (k : Kernel) (process exit_code : ℕ)
    → process ≢ 0
    → process ≢ k.kernel_process
    → is_zombie (k.process_table process).status ≡ false
    → process_exit k process exit_code
      ≡ wake_parent
          (modify k process (λ q. ended q exit_code))
          (k.process_table process).parent
          (k.process_table process).pid
unfolding process_exit
process_exit_alive k process exit_code nz nk alive =
    let given : (process == 0 || process == k.kernel_process) ≡ false = ground arith in
    rw (given, alive) refl

-- For a process that is not the kernel's, is not a zombie and is not its own parent,
-- `process_exit` stores the exit code and makes it a zombie; its parent becomes ready exactly when
-- it waits for any process or for this one; and no other record changes.
pub process_exit_lem :
    (k : Kernel) (process exit_code a : ℕ)
    → process ≢ 0
    → process ≢ k.kernel_process
    → is_zombie (k.process_table process).status ≡ false
    → (k.process_table process).parent ≢ process
    → (process_exit k process exit_code).process_table a ≡ after_exit k process exit_code a
process_exit_lem k process exit_code a nz nk alive proper =
    let p = k.process_table process in
    let k' = modify k process (λ q. ended q exit_code) in
    let seen : k'.process_table p.parent ≡ k.process_table p.parent =
      update_other k.process_table process p.parent (ended p exit_code) proper in
    let wake : Process → Process = λ x.
      if a == p.parent && (not (p.parent == 0) && waits_for x p.pid)
      then woken (k'.process_table a)
      else k'.process_table a in
    let finish : Process → Process = λ x. if a == p.parent && wakes k process then woken x else x in
    ap (λ q. q.process_table a) (process_exit_alive k process exit_code nz nk alive)
    ∙ wake_parent_lem k' p.parent p.pid a
    ∙ ap wake seen
    ∙ ap finish (modify_lem k process (λ q. ended q exit_code) a)
    ∙ elim (Bool-cases (a == process)) [
      | inl e ↦
          let other : (a == p.parent) ≡ false = ground (arith, proper, e) in rw (e, other) refl
      | inr ne ↦ rw ne refl
    ]
