-- ===== src/Process/Created.antt =====
-- A new process joins the list of all processes, kernel/src/process.c.
use kfs.Base.{
  ℕ, zero, suc, ◌+◌, ◌≤◌, ◌<◌, ◌≡◌, ◌≢◌, ◌⊎◌, refl, sym, ap, subst, ◌∙◌, true, false, ◌==◌, List,
  arith, All, Bool-cases, inl, inr,
}
use kfs.Process.{Process, Kernel, no_process, update}
use kfs.Process.Links.{free_slot, process_allocate_slot}
use kfs.Ring.{Linked, Linked-same, All-map, All-both}
use kfs.Ring.Members.{member}
use kfs.Process.Unlink.{next_of}
use kfs.Process.MapSame.{Same}
use kfs.Process.Invariant.{InTable, IsRing, Kept-Linked}

-- The search for a free slot.
free_slot_lem :
    (rounds slot : ℕ) (m : ℕ → Process)
    → (free_slot rounds m slot ≡ 0)
      ⊎ (((m (free_slot rounds m slot + 1)).used ≡ false)
          × (slot ≤ free_slot rounds m slot)
          × (free_slot rounds m slot < slot + rounds))
unfolding free_slot
free_slot_lem zero slot m = inl refl
free_slot_lem (suc rounds) slot m = elim (Bool-cases (m (slot + 1)).used) [
  | inl taken ↦ elim (free_slot_lem rounds (slot + 1) m) [
    | inl nothing ↦ inl (rw taken nothing)
    | inr (free, lo, hi) ↦ inr (rw taken (free, omega (arith, lo), omega (arith, hi)))
  ]
  | inr free ↦ inr (rw (free, free) (refl, omega arith, omega arith))
]

-- A free slot of the table, or none.
pub process_allocate_slot_lem :
    (m : ℕ → Process)
    → (process_allocate_slot m ≡ (0, m))
      ⊎ ((p : ℕ) × (process_allocate_slot m ≡ (p, update m p (record no_process { used = true })))
          × ((m p).used ≡ false)
          × InTable p)
unfolding process_allocate_slot
process_allocate_slot_lem m = elim (Bool-cases (free_slot 15 m 1 == 0)) [
  | inl full ↦ inl (rw full refl)
  | inr found ↦ elim (free_slot_lem 15 1 m) [
    | inl nothing ↦ absurd (ground (arith, found, nothing))
    | inr (free, lo, hi) ↦
        inr (free_slot 15 m 1 + 1, rw found refl, free, (omega arith, omega (arith, hi)))
  ]
]

-- Changes that keep the links keep the invariant.
pub Same-IsRing : {k q : Kernel} (xs : List ℕ) → Same k q → IsRing k xs → IsRing q xs
Same-IsRing {k} {q} xs s v = record {
  links =
      subst (λ h. Linked (next_of q.process_table) h xs) (sym s.head)
        (Kept-Linked k.process_table q.process_table k.process_head xs s.table v.links);
  different = v.different;
  inside = v.inside;
  used = All-map xs (λ x on. ap (λ i. i.1) (s.table x) ∙ on) v.used;
  head = s.head ∙ v.head ∙ sym s.kernel;
  cursor = subst (λ c. member c xs ≡ true) (sym s.cursor) v.cursor;
}

-- A record that is not in use is not on the list.
pub unused_out :
    {k : Kernel} (xs : List ℕ) (p : ℕ)
    → IsRing k xs
    → (k.process_table p).used ≡ false
    → All (λ y. y ≢ p) xs
unused_out {k} xs p v off =
    All-map xs (λ y on e. ground (arith, sym on ∙ ap (λ z. (k.process_table z).used) e ∙ off))
      v.used

-- A record off the list may change at will.
pub elsewhere-IsRing :
    {k q : Kernel} (xs : List ℕ) (p : ℕ)
    → All (λ y. y ≢ p) xs
    → ((a : ℕ) → a ≢ p → q.process_table a ≡ k.process_table a)
    → q.process_head ≡ k.process_head
    → q.kernel_process ≡ k.kernel_process
    → q.scheduler_cursor ≡ k.scheduler_cursor
    → IsRing k xs
    → IsRing q xs
elsewhere-IsRing {k} {q} xs p out same head kernel cursor v = record {
  links =
      subst (λ h. Linked (next_of q.process_table) h xs) (sym head)
        (Linked-same (next_of k.process_table) (next_of q.process_table) xs k.process_head
          (All-map xs (λ y ne. ap (λ r. r.next) (same y ne)) out) v.links);
  different = v.different;
  inside = v.inside;
  used = All-map xs (λ y h. ap (λ r. r.used) (same y h.0) ∙ h.1) (All-both _ _ xs out v.used);
  head = head ∙ v.head ∙ sym kernel;
  cursor = subst (λ c. member c xs ≡ true) (sym cursor) v.cursor;
}
