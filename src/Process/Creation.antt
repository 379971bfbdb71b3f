-- ===== src/Process/Creation.antt =====
-- The whole of process_create_internal, kernel/src/process.c, and the list of all processes.
use kfs.Base.{
  ℕ, ◌≡◌, ◌≢◌, refl, sym, ap, subst, ◌∙◌, Bool, true, false, ◌==◌, if◌then◌else◌, Option, none,
  some, List, [], ◌∷◌, ◌++◌, arith, All, Bool-cases, inl, inr, ==_iff, add32,
}
use kfs.Process.{Process, Kernel, no_process, update, modify}
use kfs.Process.Links.{process_allocate_slot}
use kfs.Process.Memory.{process_memory_map}
use kfs.Process.Sockets.{no_messages, socket_create}
use kfs.Process.Lifecycle.{
  process_release, link_process, process_initialize_context, initial_context, complete_process,
  new_process, set_up_memory, clear_words, process_create_internal,
}
use kfs.Ring.Members.{member}
use kfs.Process.Unlink.{next_of}
use kfs.Process.MapSame.{Same, Same-trans, modify-Same, After, After-trans, process_memory_map-Same}
use kfs.Process.Invariant.{InTable, IsRing, member_head, process_release-IsRing}
use kfs.Process.Created.{process_allocate_slot_lem, Same-IsRing, unused_out, elsewhere-IsRing}
use kfs.Process.Join.{IsNew, link_process-IsRing, remove_absent}
use kfs.Process.Table.{update_self, update_other}

-- What a call that may create a process leaves: on success the new process is last on the list.
unfoldable pub Created : List ℕ → Option (ℕ × Kernel) → Type 0
Created xs none = Unit
Created xs (some (p, k)) = IsRing k (if p == 0 then xs else xs ++ p ∷ [])

Same-IsNew : {k q : Kernel} (xs : List ℕ) (p : ℕ) → Same k q → IsNew k xs p → IsNew q xs p
Same-IsNew xs p s n = record {
  out = n.out;
  inside = n.inside;
  alone = ap (λ i. i.0) (s.table p) ∙ n.alone;
  used = ap (λ i. i.1) (s.table p) ∙ n.used;
}

member_out : (a p : ℕ) (xs : List ℕ) → member a xs ≡ true → All (λ y. y ≢ p) xs → a ≢ p
unfolding member
member_out a p [] m out = absurd (ground (arith, m))
member_out a p (x ∷ xs) m (ne, out) = elim (Bool-cases (x == a)) [
  | inl e ↦ λ q. ne ((==_iff x a).0 e ∙ q)
  | inr on ↦ member_out a p xs (rw on at m) out
]

clear_words-IsRing :
    (k : Kernel) (xs : List ℕ) (process : ℕ) → IsRing k xs → IsRing (clear_words k process) xs
clear_words-IsRing k xs process v =
    Same-IsRing xs (record { table = λ a. refl; head = refl; kernel = refl; cursor = refl }) v

module _ (directories bootstrap : ℕ) (xs : List ℕ) (parent p : ℕ) where
  abandoned : (k : Kernel) → IsRing k xs → IsNew k xs p → IsRing (process_release k p) xs
  abandoned k v n =
      let on_list =
        member_head (next_of k.process_table) k.process_head k.scheduler_cursor xs v.links
          v.cursor in
      let other : p ≢ k.kernel_process =
        λ e. member_out k.process_head p xs on_list n.out (v.head ∙ sym e) in
      subst (IsRing (process_release k p)) (remove_absent p xs n.out)
        (process_release-IsRing k xs p v n.inside.0 other)

  complete_process-Created :
      (k : Kernel) (o : Option (Bool × Kernel))
      → IsRing k xs
      → IsNew k xs p
      → After (Same k) o
      → Created xs (complete_process directories bootstrap parent p o)
  unfolding complete_process process_initialize_context Created After
  complete_process-Created k none v n s = tt
  complete_process-Created k (some (false, q)) v n s =
      abandoned q (Same-IsRing xs s v) (Same-IsNew xs p s n)
  complete_process-Created k (some (true, q)) v n s =
      let there : (p == 0) ≡ false = ground (arith, n.inside.0) in
      let set_up : Process → Process =
        λ r. record r { context = initial_context bootstrap r.memory.stack_top } in
      let t = Same-trans s (modify-Same q p set_up (λ r. refl)) in
      let q' = process_initialize_context directories bootstrap q p in
      let linked = link_process q' parent p in
      subst (λ b. IsRing (clear_words linked p) (if b then xs else xs ++ p ∷ [])) (sym there)
        (clear_words-IsRing linked (xs ++ p ∷ []) p
          (link_process-IsRing q' xs parent p (Same-IsRing xs t v) (Same-IsNew xs p t n)))

  -- The record before the calls that can fail.
  module _ (k : Kernel) (v : IsRing k xs) (owner base function size : ℕ)
      (off : (k.process_table p).used ≡ false) (inside : InTable p) where
    abbrev fresh : Process
    fresh = record no_process { used = true }

    abbrev numbered : Kernel
    numbered = record k {
      process_table = update k.process_table p fresh;
      next_pid = add32 k.next_pid 1;
    }

    abbrev fill : Process → Process
    fill = new_process k.next_pid owner base function size

    abbrev filled : Kernel
    filled = modify numbered p fill

    filled_same : (a : ℕ) → a ≢ p → filled.process_table a ≡ k.process_table a
    filled_same a ne =
        update_other numbered.process_table p a (fill (numbered.process_table p)) ne
        ∙ update_other k.process_table p a fresh ne

    filled_self : filled.process_table p ≡ fill fresh
    filled_self =
        update_self numbered.process_table p (fill (numbered.process_table p))
        ∙ ap fill (update_self k.process_table p fresh)

    filled-IsRing : IsRing filled xs
    filled-IsRing = elsewhere-IsRing xs p (unused_out xs p v off) filled_same refl refl refl v

    filled-IsNew : IsNew filled xs p
    filled-IsNew = record {
      out = unused_out xs p v off;
      inside = inside;
      alone = ap (λ r. r.next) filled_self;
      used = ap (λ r. r.used) filled_self;
    }

socketed : Kernel → ℕ → Kernel
socketed k p = modify k p (λ q. record q { process_socket = no_messages q.process_socket })

socketed-Same : (k : Kernel) (p : ℕ) → Same k (socketed k p)
unfolding socketed
socketed-Same k p =
    modify-Same k p (λ q. record q { process_socket = no_messages q.process_socket }) (λ q. refl)

socket_create_given : (k : Kernel) (p : ℕ) → p ≢ 0 → socket_create k p ≡ some (socketed k p)
unfolding socket_create socketed
socket_create_given k p nz = let there : (p == 0) ≡ false = ground arith in rw there refl

set_up_memory-Same :
    (directories bootstrap : ℕ) (k : Kernel) (p : ℕ)
    → p ≢ 0
    → After (Same k) (set_up_memory directories bootstrap k p)
unfolding set_up_memory
set_up_memory-Same directories bootstrap k p nz =
    let result : set_up_memory directories bootstrap k p
        ≡ process_memory_map directories (socketed k p) p =
      rw (set_up_memory, socket_create_given k p nz) refl in
    subst (After (Same k)) (sym result) (
      After-trans (socketed-Same k p) (process_memory_map directories (socketed k p) p)
        (process_memory_map-Same directories (socketed k p) p))

no_slot :
    (directories bootstrap : ℕ) (k : Kernel) (parent owner base function size : ℕ)
    → process_allocate_slot k.process_table ≡ (0, k.process_table)
    → process_create_internal directories bootstrap k parent owner base function size ≡ some (0, k)
unfolding process_create_internal
no_slot directories bootstrap k parent owner base function size full = rw full refl

nothing-Created : (k : Kernel) (xs : List ℕ) → IsRing k xs → Created xs (some (0, k))
unfolding Created
nothing-Created k xs v = v

creation_given :
    (directories bootstrap : ℕ) (xs : List ℕ) (parent p : ℕ) (k : Kernel) (v : IsRing k xs)
    (owner base function size : ℕ) (off : (k.process_table p).used ≡ false) (inside : InTable p)
    → let k' = filled directories bootstrap xs parent p k v owner base function size off inside in
      process_allocate_slot k.process_table
        ≡ (p, update k.process_table p (record no_process { used = true }))
      → process_create_internal directories bootstrap k parent owner base function size
        ≡ complete_process directories bootstrap parent p (set_up_memory directories bootstrap k' p)
unfolding process_create_internal
creation_given directories bootstrap xs parent p k v owner base function size off inside found =
    let there : (p == 0) ≡ false = ground (arith, inside.0) in
    let k' = filled directories bootstrap xs parent p k v owner base function size off inside in
    let with_slot : ℕ × (ℕ → Process) → Option (ℕ × Kernel) = λ a.
      if a.0 == 0
      then some (0, k)
      else complete_process directories bootstrap parent a.0 (
          set_up_memory directories bootstrap
            (modify (record k { process_table = a.1; next_pid = add32 k.next_pid 1 }) a.0
              (new_process k.next_pid owner base function size))
            a.0) in
    let made : Option (ℕ × Kernel) =
      complete_process directories bootstrap parent p (set_up_memory directories bootstrap k' p) in
    ap with_slot found ∙ ap (λ b. if b then some (0, k) else made) there

-- `process_create_internal` keeps the list of all processes in order, on success and on failure: a
-- process that it makes is the last on the list, and NULL leaves the list as it was.
pub process_create_internal-IsRing :
    (directories bootstrap : ℕ) (k : Kernel) (xs : List ℕ) (parent owner base function size : ℕ)
    → IsRing k xs
    → Created xs (process_create_internal directories bootstrap k parent owner base function size)
process_create_internal-IsRing directories bootstrap k xs parent owner base function size v =
    elim (process_allocate_slot_lem k.process_table) [
      | inl full ↦
          subst (Created xs)
            (sym (no_slot directories bootstrap k parent owner base function size full))
            (nothing-Created k xs v)
      | inr (p, found, off, inside) ↦
          let k' =
            filled directories bootstrap xs parent p k v owner base function size off inside in
          subst (Created xs)
            (sym (
              creation_given directories bootstrap xs parent p k v owner base function size off
                inside found))
            (complete_process-Created directories bootstrap xs parent p k'
              (set_up_memory directories bootstrap k' p)
              (filled-IsRing directories bootstrap xs parent p k v owner base function size off
                inside)
              (filled-IsNew directories bootstrap xs parent p k v owner base function size off
                inside)
              (set_up_memory-Same directories bootstrap k' p inside.0))
    ]
