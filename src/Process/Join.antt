-- ===== src/Process/Join.antt =====
-- The creation of a process, kernel/src/process.c, and the list of all processes.
use kfs.Base.{
  ℕ, ◌<◌, ◌≡◌, ◌≢◌, refl, sym, ap, ◌∙◌, true, false, ◌==◌, List, [], ◌∷◌, ◌++◌, arith, All, length,
}
use kfs.Process.{Process, Kernel, process_max_count}
use kfs.Process.Links.{process_link_child, process_link_global}
use kfs.Process.Lifecycle.{link_process}
use kfs.Ring.{Linked, Distinct, remove, All-map, All-append}
use kfs.Ring.Members.{member, member-append, length-Distinct}
use kfs.Process.Unlink.{next_of, apart}
use kfs.Process.Append.{process_link_global_lem}
use kfs.Process.Same.{process_link_child-Kept}
use kfs.Process.Invariant.{InTable, IsRing, Kept-Linked}

Distinct-append :
    (xs : List ℕ) (p : ℕ) → Distinct xs → All (λ y. y ≢ p) xs → Distinct (xs ++ p ∷ [])
unfolding Distinct
Distinct-append [] p d out = (tt, tt)
Distinct-append (x ∷ xs) p (here, d) (ne, out) =
    (All-append (λ y. x ≢ y) xs (p ∷ []) here (ne, tt), Distinct-append xs p d out)

-- An entry at the end leaves the first.
Linked-append_head :
    (f g : ℕ → ℕ) (head h a : ℕ) (xs ys : List ℕ)
    → Linked f head xs
    → member a xs ≡ true
    → Linked g h (xs ++ ys)
    → h ≡ head
unfolding Linked member
Linked-append_head f g head h a [] ys l m l' = absurd (ground (arith, m))
Linked-append_head f g head h a (x ∷ xs) ys (e, nz, l) m (e', nz', l') = e' ∙ sym e

pub remove_absent : (p : ℕ) (xs : List ℕ) → All (λ y. y ≢ p) xs → remove p xs ≡ xs
unfolding remove
remove_absent p [] out = refl
remove_absent p (x ∷ xs) (ne, out) =
    let other : (x == p) ≡ false = ground arith in
    rw other (ap (λ ys. x ∷ ys) (remove_absent p xs out))

-- A record that is ready to join.
pub record IsNew (k : Kernel) (xs : List ℕ) (p : ℕ) : Type 0 where
  pub out : All (λ y. y ≢ p) xs
  pub inside : InTable p
  pub alone : (k.process_table p).next ≡ 0
  pub used : (k.process_table p).used ≡ true

module _ (k : Kernel) (xs : List ℕ) (parent p : ℕ) (v : IsRing k xs) (n : IsNew k xs p) where
  abbrev children : ℕ → Process
  children = process_link_child k.process_table parent p

  abbrev joined : ℕ × (ℕ → Process)
  joined = process_link_global (k.process_head, children) p

  room : length xs < process_max_count
  unfolding Distinct
  room = omega (
    arith,
    length-Distinct process_max_count (p ∷ xs)
        (All-map xs (λ y ne e. ne (sym e)) n.out, v.different) (n.inside, v.inside),
  )

  joined_lem :
      Linked (next_of joined.1) joined.0 (xs ++ p ∷ [])
      × ((a : ℕ) → apart (joined.1 a) ≡ apart (children a))
  joined_lem =
      let same = process_link_child-Kept k.process_table parent p in
      process_link_global_lem xs k.process_head children p room n.inside.0
        (ap (λ i. i.0) (same p) ∙ n.alone) n.out
        (Kept-Linked k.process_table children k.process_head xs same v.links) v.different

  joined_used : (x : ℕ) → (k.process_table x).used ≡ true → (joined.1 x).used ≡ true
  joined_used x on =
      ap (λ r. r.used) (joined_lem.1 x)
      ∙ ap (λ i. i.1) (process_link_child-Kept k.process_table parent p x)
      ∙ on

  pub link_process-IsRing : IsRing (link_process k parent p) (xs ++ p ∷ [])
  unfolding link_process
  link_process-IsRing = record {
    links = joined_lem.0;
    different = Distinct-append xs p v.different n.out;
    inside = All-append InTable xs (p ∷ []) v.inside (n.inside, tt);
    used = All-append _ xs (p ∷ []) (All-map xs joined_used v.used) (joined_used p n.used, tt);
    head =
        Linked-append_head (next_of k.process_table) (next_of joined.1) k.process_head joined.0
          k.scheduler_cursor xs (p ∷ []) v.links v.cursor joined_lem.0
        ∙ v.head;
    cursor = member-append k.scheduler_cursor xs (p ∷ []) v.cursor;
  }
