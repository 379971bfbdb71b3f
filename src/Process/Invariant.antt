-- ===== src/Process/Invariant.antt =====
-- What holds of the list of all processes between the operations of kernel/src/process.c.
use kfs.Base.{
  ℕ, ◌≤◌, ◌≡◌, ◌≢◌, refl, sym, ap, subst, ◌∙◌, true, false, ◌||◌, ◌==◌, if◌then◌else◌, List, [],
  ◌∷◌, arith, All, length, Bool-cases, inl, inr, ==_iff,
}
use kfs.Process.{Process, Kernel, no_process, process_max_count, update}
use kfs.Process.Links.{process_unlink_child, process_unlink_global}
use kfs.Process.Memory.{process_release_memory}
use kfs.Process.Lifecycle.{process_release}
use kfs.Ring.{Linked, Distinct, remove, Linked-same, All-map, All-both, All-remove, remove-Distinct}
use kfs.Ring.Members.{member, member-remove, remove_out, length-Distinct}
use kfs.Process.Unlink.{next_of, apart, process_unlink_global_lem}
use kfs.Process.Same.{Kept, Kept-trans, process_unlink_child-Kept}
use kfs.Process.MapSame.{process_release_memory-Same}
use kfs.Process.Table.{update_other}

abbrev pub InTable : ℕ → Type 0
InTable x = (x ≢ 0) × (x ≤ process_max_count)

-- The links spell the list: different records of the table, all in use, with the kernel's process
-- first and the scheduler's cursor among them.
pub record IsRing (k : Kernel) (xs : List ℕ) : Type 0 where
  pub links : Linked (next_of k.process_table) k.process_head xs
  pub different : Distinct xs
  pub inside : All InTable xs
  pub used : All (λ x. (k.process_table x).used ≡ true) xs
  pub head : k.process_head ≡ k.kernel_process
  pub cursor : member k.scheduler_cursor xs ≡ true

pub IsRing-length : {k : Kernel} {xs : List ℕ} → IsRing k xs → length xs ≤ process_max_count
IsRing-length {k} {xs} v = length-Distinct process_max_count xs v.different v.inside

pub All-every : (P : ℕ → Type 0) (xs : List ℕ) → ((x : ℕ) → P x) → All P xs
All-every P [] h = tt
All-every P (x ∷ xs) h = (h x, All-every P xs h)

-- The list does not see a change that keeps links.
pub Kept-Linked :
    (m q : ℕ → Process) (head : ℕ) (xs : List ℕ)
    → Kept m q
    → Linked (next_of m) head xs
    → Linked (next_of q) head xs
Kept-Linked m q head xs same l =
    Linked-same (next_of m) (next_of q) xs head
      (All-every (λ y. next_of q y ≡ next_of m y) xs (λ y. ap (λ i. i.0) (same y))) l

pub member_head :
    (follow : ℕ → ℕ) (head a : ℕ) (xs : List ℕ)
    → Linked follow head xs
    → member a xs ≡ true
    → member head xs ≡ true
unfolding Linked member
member_head follow head a [] l h = absurd (ground (arith, h))
member_head follow head a (x ∷ xs) (e, nz, l) h = rw ((==_iff x head).1 (sym e)) refl

-- Taking another one off leaves the first.
Linked-remove_head :
    (f g : ℕ → ℕ) (head h a process : ℕ) (xs : List ℕ)
    → Linked f head xs
    → member a xs ≡ true
    → head ≢ process
    → Linked g h (remove process xs)
    → h ≡ head
unfolding Linked member remove
Linked-remove_head f g head h a process [] l m ne l' = absurd (ground (arith, m))
Linked-remove_head f g head h a process (x ∷ xs) (e, nz, l) m ne l' =
    let other : (x == process) ≡ false = ground (arith, e, ne) in
    let kept : remove process (x ∷ xs) ≡ x ∷ remove process xs = rw other refl in
    let first : Linked g h (x ∷ remove process xs) = subst (Linked g h) kept l' in first.0 ∙ sym e

module _ (k : Kernel) (xs : List ℕ) (process : ℕ) (v : IsRing k xs) (nz : process ≢ 0)
    (nk : process ≢ k.kernel_process) where
  abbrev moved : Kernel
  moved = record k {
    scheduler_cursor = if k.scheduler_cursor == process then k.process_head else k.scheduler_cursor;
  }

  abbrev freed : Kernel
  freed = process_release_memory moved process

  abbrev orphaned : ℕ → Process
  orphaned = process_unlink_child freed.process_table process

  abbrev unlinked : ℕ × (ℕ → Process)
  unlinked = process_unlink_global (freed.process_head, orphaned) process

  orphaned-Kept : Kept k.process_table orphaned
  orphaned-Kept =
      Kept-trans k.process_table freed.process_table orphaned
        (process_release_memory-Same moved process).table
        (process_unlink_child-Kept freed.process_table process)

  unlinked_lem :
      Linked (next_of unlinked.1) unlinked.0 (remove process xs)
      × ((a : ℕ) → apart (unlinked.1 a) ≡ apart (orphaned a))
  unlinked_lem =
      process_unlink_global_lem xs freed.process_head orphaned process (IsRing-length v)
        (subst (λ h. Linked (next_of orphaned) h xs)
          (sym (process_release_memory-Same moved process).head)
          (Kept-Linked k.process_table orphaned k.process_head xs orphaned-Kept v.links))
        v.different

  cursor_kept : member moved.scheduler_cursor (remove process xs) ≡ true
  cursor_kept =
      let other : k.process_head ≢ process = λ e. nk (sym e ∙ v.head) in
      elim (Bool-cases (k.scheduler_cursor == process)) [
        | inl here ↦ rw here (
            member-remove k.process_head process xs other (
              member_head (next_of k.process_table) k.process_head k.scheduler_cursor xs v.links
                v.cursor))
        | inr away ↦
            rw away (member-remove k.scheduler_cursor process xs (ground (arith, away)) v.cursor)
      ]

  used_kept :
      (x : ℕ)
      → (process ≢ x) × ((k.process_table x).used ≡ true)
      → (update unlinked.1 process no_process x).used ≡ true
  used_kept x (ne, on) =
      ap (λ p. p.used) (update_other unlinked.1 process x no_process (λ e. ne (sym e)))
      ∙ ap (λ p. p.used) (unlinked_lem.1 x)
      ∙ ap (λ i. i.1) (orphaned-Kept x)
      ∙ on

  released : Kernel
  released = record freed {
    process_head = unlinked.0;
    process_table = update unlinked.1 process no_process;
  }

  released-IsRing : IsRing released (remove process xs)
  unfolding released
  released-IsRing =
      let left = remove process xs in
      let out = remove_out process xs v.different in
      let same = process_release_memory-Same moved process in
      let first : unlinked.0 ≡ k.process_head =
        Linked-remove_head (next_of k.process_table) (next_of unlinked.1) k.process_head unlinked.0
          k.scheduler_cursor process xs v.links v.cursor (λ e. nk (sym e ∙ v.head))
          unlinked_lem.0 in
      record {
        links =
            Linked-same (next_of unlinked.1) (next_of (update unlinked.1 process no_process)) left
              unlinked.0
              (All-map left
                (λ y ne.
                  ap (λ p. p.next) (update_other unlinked.1 process y no_process (λ e. ne (sym e))))
                out)
              unlinked_lem.0;
        different = remove-Distinct process xs v.different;
        inside = All-remove InTable process xs v.inside;
        used = All-map left used_kept (All-both _ _ left out (All-remove _ process xs v.used));
        head = first ∙ v.head ∙ sym same.kernel;
        cursor = subst (λ c. member c left ≡ true) (sym same.cursor) cursor_kept;
      }

  process_release_given : process_release k process ≡ released
  unfolding process_release released
  process_release_given =
      let given : (process == 0 || process == k.kernel_process) ≡ false = ground arith in
      rw given refl

  -- `process_release` of a process other than the kernel's takes it off the list, keeps the others
  -- linked, and leaves the scheduler's cursor on the list.
  pub process_release-IsRing : IsRing (process_release k process) (remove process xs)
  process_release-IsRing =
      subst (λ q. IsRing q (remove process xs)) (sym process_release_given) released-IsRing
