-- ===== src/Process/Pick.antt =====
-- The choice of the next process, kernel/src/process.c: the ring of the processes, from the one
-- behind the cursor on and back to the cursor.
use mathlib.Core.List.{append_assoc}
use kfs.Base.{
  ◌⊎◌, ℕ, zero, suc, ◌≤◌, ◌<◌, ◌≡◌, ◌≢◌, refl, sym, subst, ◌∙◌, true, false, List, [], ◌∷◌, ◌++◌,
  arith, ◌==◌, if◌then◌else◌, length, length-append, All, Bool-cases, inl, inr,
}
use kfs.Process.{Kernel, process_max_count}
use kfs.Process.Scheduler.{can_run, next_in_ring, find_runnable, pick_next_process}
use kfs.Ring.{
  Linked, Distinct, All-append, All-rotate, All-rotate_back, Distinct-around, Linked-nonzero,
}
use kfs.Process.Unlink.{next_of}

-- The first process of a list that can run, 0 where there is none.
unfoldable pub first_runnable : Kernel → List ℕ → ℕ
first_runnable k [] = 0
first_runnable k (x ∷ xs) =
    let rest = first_runnable k xs in if can_run (k.process_table x) then x else rest

-- Each step of the ring goes to the next address.
unfoldable pub Steps : Kernel → ℕ → List ℕ → Type 0
Steps k from [] = Unit
Steps k from (x ∷ xs) = (next_in_ring k from ≡ x) × Steps k x xs

-- The loop goes along the ring until it is back where it began.
find_runnable_lem :
    (xs : List ℕ) (rounds : ℕ) (k : Kernel) (start from : ℕ)
    → length xs < rounds
    → Steps k from (xs ++ start ∷ [])
    → All (λ y. y ≢ start) xs
    → find_runnable rounds k start from ≡ first_runnable k (xs ++ start ∷ [])
unfolding find_runnable first_runnable Steps
find_runnable_lem xs zero k start from le st out = absurd (omega arith)
find_runnable_lem [] (suc rounds) k start from le (e, end) out =
    elim (Bool-cases (can_run (k.process_table start))) [
      | inl able ↦ rw (e, able) refl
      | inr unable ↦ rw (e, unable) (ground arith)
    ]
find_runnable_lem (x ∷ xs) (suc rounds) k start from le (e, st) (ne, out) =
    let apart : (x == start) ≡ false = ground arith in
    elim (Bool-cases (can_run (k.process_table x))) [
      | inl able ↦ rw (e, able) refl
      | inr unable ↦
          rw (e, unable, apart) (find_runnable_lem xs rounds k start x (omega arith) st out)
    ]

module _ (k : Kernel) where
  abbrev FollowsNext : ℕ → List ℕ → Type 0
  FollowsNext = Linked (next_of k.process_table)

  next_in_ring-Linked :
      (from x : ℕ) → next_of k.process_table from ≡ x → x ≢ 0 → next_in_ring k from ≡ x
  next_in_ring-Linked from x e nz = ground arith

  -- Along a list, as far as one likes.
  Steps-prefix :
      (xs ys : List ℕ) (from c : ℕ)
      → FollowsNext (next_of k.process_table from) (xs ++ c ∷ ys)
      → Steps k from (xs ++ c ∷ [])
  unfolding Linked Steps
  Steps-prefix [] ys from c (e, nz, l) = (next_in_ring-Linked from c e nz, tt)
  Steps-prefix (x ∷ xs) ys from c (e, nz, l) =
      (next_in_ring-Linked from x e nz, Steps-prefix xs ys x c l)

  -- Along a list to its end, and on from the head.
  Steps-around :
      (xs zs : List ℕ) (from : ℕ)
      → FollowsNext (next_of k.process_table from) xs
      → ((p : ℕ) → next_in_ring k p ≡ k.process_head → Steps k p zs)
      → Steps k from (xs ++ zs)
  unfolding Linked Steps
  Steps-around [] zs from l on = on from (ground (arith, l))
  Steps-around (x ∷ xs) zs from (e, nz, l) on =
      (next_in_ring-Linked from x e nz, Steps-around xs zs x l on)

  Steps-head :
      (before after : List ℕ) (cursor p : ℕ)
      → FollowsNext k.process_head (before ++ cursor ∷ after)
      → next_in_ring k p ≡ k.process_head
      → Steps k p (before ++ cursor ∷ [])
  unfolding Linked Steps
  Steps-head [] after cursor p (e, nz, l) at = (at ∙ e, tt)
  Steps-head (b ∷ before) after cursor p (e, nz, l) at =
      (at ∙ e, Steps-prefix before after b cursor l)

  Linked-behind :
      (before after : List ℕ) (cursor head : ℕ)
      → FollowsNext head (before ++ cursor ∷ after)
      → FollowsNext (next_of k.process_table cursor) after × (cursor ≢ 0)
  unfolding Linked
  Linked-behind [] after cursor head (e, nz, l) = (l, nz)
  Linked-behind (b ∷ before) after cursor head (e, nz, l) =
      Linked-behind before after cursor (next_of k.process_table b) l

  Linked-head :
      (before after : List ℕ) (c head : ℕ) → FollowsNext head (before ++ c ∷ after) → head ≢ 0
  unfolding Linked
  Linked-head [] after c head (e, nz, l) = rw e nz
  Linked-head (b ∷ before) after c head (e, nz, l) = rw e nz

  pick_next_process_given :
      k.scheduler_enabled ≡ true
      → k.scheduler_cursor ≢ 0
      → k.process_head ≢ 0
      → pick_next_process k
        ≡ find_runnable process_max_count k k.scheduler_cursor k.scheduler_cursor
  unfolding pick_next_process
  pick_next_process_given on given some_left = ground (arith, on)

-- When the scheduler is on, and the links spell a list of at most 16 different processes in which
-- the cursor has some before and some after it, `pick_next_process` gives the first process that
-- can run of those after the cursor, then those before it, and last the one at the cursor, and NULL when
-- none can run.
pub pick_next_process_lem :
    (k : Kernel) (before after : List ℕ)
    → k.scheduler_enabled ≡ true
    → Linked (next_of k.process_table) k.process_head (before ++ k.scheduler_cursor ∷ after)
    → Distinct (before ++ k.scheduler_cursor ∷ after)
    → length (before ++ k.scheduler_cursor ∷ after) ≤ process_max_count
    → pick_next_process k ≡ first_runnable k (after ++ before ++ k.scheduler_cursor ∷ [])
pick_next_process_lem k before after on l d le =
    let cursor = k.scheduler_cursor in
    let (rest, nz) = Linked-behind k before after cursor k.process_head l in
    let (out, out') = Distinct-around before after cursor d in
    pick_next_process_given k on nz (Linked-head k before after cursor k.process_head l)
    ∙ find_runnable_lem (after ++ before) process_max_count k cursor cursor
        (omega (arith, le, length-append after before, length-append before (cursor ∷ after)))
        (subst (Steps k cursor) (sym (append_assoc after before (cursor ∷ []))) (
          Steps-around k after (before ++ cursor ∷ []) cursor rest
            (λ p e. Steps-head k before after cursor p l e)))
        (All-append _ after before out' out)

-- A runnable process is found, and only such a process.
pub first_runnable_lem :
    (k : Kernel) (xs : List ℕ)
    → All (λ x. x ≢ 0) xs
    → ((first_runnable k xs ≡ 0) × All (λ x. can_run (k.process_table x) ≡ false) xs)
      ⊎ ((first_runnable k xs ≢ 0) × (can_run (k.process_table (first_runnable k xs)) ≡ true))
unfolding first_runnable
first_runnable_lem k [] nz = inl (refl, tt)
first_runnable_lem k (x ∷ xs) (here, nz) = elim (Bool-cases (can_run (k.process_table x))) [
  | inl able ↦ inr (rw able here, rw (able, able) refl)
  | inr unable ↦ elim (first_runnable_lem k xs nz) [
    | inl (e, none_left) ↦ inl (rw (unable, e) refl, (unable, none_left))
    | inr (ne, able) ↦ inr (rw unable ne, rw unable able)
  ]
]

-- When the scheduler is on, and the links spell a list of at most 16 different processes that the
-- cursor is on, `pick_next_process` gives NULL only if no process on the list can run, and else a
-- process that can run.
pub pick_next_process_live :
    (k : Kernel) (before after : List ℕ)
    → k.scheduler_enabled ≡ true
    → Linked (next_of k.process_table) k.process_head (before ++ k.scheduler_cursor ∷ after)
    → Distinct (before ++ k.scheduler_cursor ∷ after)
    → length (before ++ k.scheduler_cursor ∷ after) ≤ process_max_count
    → ((pick_next_process k ≡ 0)
        × All (λ x. can_run (k.process_table x) ≡ false) (before ++ k.scheduler_cursor ∷ after))
      ⊎ ((pick_next_process k ≢ 0) × (can_run (k.process_table (pick_next_process k)) ≡ true))
pick_next_process_live k before after on l d le =
    let cursor = k.scheduler_cursor in
    let ring = before ++ cursor ∷ after in
    let nonzero =
      All-rotate _ before after cursor
        (Linked-nonzero (next_of k.process_table) ring k.process_head l) in
    rw (pick_next_process_lem k before after on l d le)
      (elim (first_runnable_lem k (after ++ before ++ cursor ∷ []) nonzero) [
        | inl (e, unable) ↦ inl (e, All-rotate_back _ before after cursor unable)
        | inr found ↦ inr found
      ])
