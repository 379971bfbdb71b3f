-- ===== src/Process/Chosen.antt =====
-- The process that the scheduler of kernel/src/process.c picks is on the list of all processes.
use kfs.Base.{
  ℕ, ◌≡◌, ◌≢◌, ◌⊎◌, refl, sym, subst, ◌∙◌, true, false, ◌==◌, if◌then◌else◌, List, [], ◌∷◌, ◌++◌,
  arith, All, length, ◌≤◌, Bool-cases, inl, inr, ==_iff,
}
use kfs.Process.{Kernel}
use kfs.Process.Scheduler.{can_run, pick_next_process}
use kfs.Ring.{Linked, Distinct, All-map, All-rotate}
use kfs.Ring.Members.{member, member-split}
use kfs.Process.Unlink.{next_of}
use kfs.Process.Pick.{first_runnable, pick_next_process_lem, pick_next_process_live}
use kfs.Process.Invariant.{IsRing, IsRing-length}
use kfs.Process.Table.{==_self}

first_runnable-member :
    (k : Kernel) (xs : List ℕ) → first_runnable k xs ≢ 0 → member (first_runnable k xs) xs ≡ true
unfolding first_runnable member
first_runnable-member k [] nz = absurd (nz refl)
first_runnable-member k (x ∷ xs) nz = elim (Bool-cases (can_run (k.process_table x))) [
  | inl able ↦ rw (able, ==_self x) refl
  | inr unable ↦
      let rest = first_runnable k xs in
      let next : first_runnable k (x ∷ xs) ≡ rest = rw unable refl in
      subst (λ r. member r (x ∷ xs) ≡ true) (sym next)
        (elim (Bool-cases (x == rest)) [
          | inl here ↦ rw here refl
          | inr on ↦ rw on (first_runnable-member k xs (λ e. nz (next ∙ e)))
        ])
]

member-All : (P : ℕ → Type 0) (a : ℕ) (xs : List ℕ) → member a xs ≡ true → All P xs → P a
unfolding member
member-All P a [] m h = absurd (ground (arith, m))
member-All P a (x ∷ xs) m (h, hs) = elim (Bool-cases (x == a)) [
  | inl e ↦ subst P ((==_iff x a).0 e) h
  | inr on ↦ member-All P a xs (rw on at m) hs
]

members : (xs : List ℕ) → All (λ x. member x xs ≡ true) xs
unfolding member
members [] = tt
members (x ∷ xs) = (
  rw (==_self x) refl,
  All-map xs
      (λ y m. elim (x == y) as (λ b. (if b then true else member y xs) ≡ true) [
        | true ↦ refl
        | false ↦ m
      ])
      (members xs),
)

-- A scheduler that is off picks nothing.
pub off_lem : (k : Kernel) → k.scheduler_enabled ≡ false → pick_next_process k ≡ 0
unfolding pick_next_process
off_lem k off = ground (arith, off)

pub pick-member :
    (k : Kernel) (xs : List ℕ)
    → IsRing k xs
    → pick_next_process k ≢ 0
    → member (pick_next_process k) xs ≡ true
pick-member k xs v found = elim (Bool-cases k.scheduler_enabled) [
  | inr off ↦ absurd (found (off_lem k off))
  | inl on ↦
      let cursor = k.scheduler_cursor in
      let (before, after, e) = member-split cursor xs v.cursor in
      let order = after ++ before ++ cursor ∷ [] in
      let picked : pick_next_process k ≡ first_runnable k order =
        pick_next_process_lem k before after on
          (subst (Linked (next_of k.process_table) k.process_head) e v.links)
          (subst Distinct e v.different) (subst (λ ys. length ys ≤ 16) e (IsRing-length v)) in
      let all_on : All (λ x. member x xs ≡ true) order =
        All-rotate (λ x. member x xs ≡ true) before after cursor
          (subst (All (λ x. member x xs ≡ true)) e (members xs)) in
      subst (λ x. member x xs ≡ true) (sym picked)
        (member-All (λ x. member x xs ≡ true) (first_runnable k order) order
          (first_runnable-member k order (λ z. found (picked ∙ z))) all_on)
]

-- What the scheduler picks when the list is in order.
pub pick-live :
    (k : Kernel) (xs : List ℕ)
    → IsRing k xs
    → k.scheduler_enabled ≡ true
    → ((pick_next_process k ≡ 0) × All (λ x. can_run (k.process_table x) ≡ false) xs)
      ⊎ ((pick_next_process k ≢ 0) × (can_run (k.process_table (pick_next_process k)) ≡ true))
pick-live k xs v on =
    let cursor = k.scheduler_cursor in
    let (before, after, e) = member-split cursor xs v.cursor in
    elim (pick_next_process_live k before after on
      (subst (Linked (next_of k.process_table) k.process_head) e v.links)
      (subst Distinct e v.different) (subst (λ ys. length ys ≤ 16) e (IsRing-length v))) [
        | inl (nothing, unable) ↦
            inl (nothing, subst (All (λ x. can_run (k.process_table x) ≡ false)) (sym e) unable)
        | inr found ↦ inr found
      ]
