-- ===== src/Process/Find.antt =====
-- Looking a process up by its pid, kernel/src/process.c.
use kfs.Base.{
  ℕ, zero, suc, ◌+◌, ◌≤◌, ◌≡◌, ◌≢◌, refl, sym, ap, subst, ◌∙◌, Bool, true, false, ◌&&◌, List, [],
  ◌∷◌, arith, ◌==◌, if◌then◌else◌, length, Bool-cases, inl, inr,
}
use kfs.Process.{Process, Kernel, process_max_count}
use kfs.Process.Links.{find_pid, process_get_by_pid, count_used, process_count}
use kfs.Ring.{Linked}
use kfs.Process.Unlink.{next_of}

-- The first process of a list with a pid, 0 where there is none.
abbrev pub has_pid : Process → ℕ → Bool
has_pid p pid = p.used && p.pid == pid

unfoldable pub first_with_pid : (ℕ → Process) → ℕ → List ℕ → ℕ
first_with_pid m pid [] = 0
first_with_pid m pid (x ∷ xs) =
    let rest = first_with_pid m pid xs in if has_pid (m x) pid then x else rest

unfoldable pub used_count : (ℕ → Process) → List ℕ → ℕ
used_count m [] = 0
used_count m (x ∷ xs) = let rest = used_count m xs in if (m x).used then suc rest else rest

find_pid_lem :
    (xs : List ℕ) (rounds : ℕ) (m : ℕ → Process) (pid cursor : ℕ)
    → length xs ≤ rounds
    → Linked (next_of m) cursor xs
    → find_pid rounds m pid cursor ≡ first_with_pid m pid xs
unfolding find_pid first_with_pid Linked
find_pid_lem [] zero m pid cursor le l = refl
find_pid_lem [] (suc rounds) m pid cursor le l =
    let end : (cursor == 0) ≡ true = ground (arith, l) in rw end refl
find_pid_lem (x ∷ xs) zero m pid cursor le l = absurd (omega arith)
find_pid_lem (x ∷ xs) (suc rounds) m pid cursor le (e, nz, l) =
    let more : (cursor == 0) ≡ false = ground (arith, e, nz) in
    rw (more, e, find_pid_lem xs rounds m pid (m x).next (omega arith) l) refl

count_used_lem :
    (xs : List ℕ) (rounds : ℕ) (m : ℕ → Process) (cursor count : ℕ)
    → length xs ≤ rounds
    → Linked (next_of m) cursor xs
    → count_used rounds m cursor count ≡ count + used_count m xs
unfolding count_used used_count Linked
count_used_lem [] zero m cursor count le l = omega arith
count_used_lem [] (suc rounds) m cursor count le l =
    let end : (cursor == 0) ≡ true = ground (arith, l) in rw end (omega arith)
count_used_lem (x ∷ xs) zero m cursor count le l = absurd (omega arith)
count_used_lem (x ∷ xs) (suc rounds) m cursor count le (e, nz, l) =
    let more : (cursor == 0) ≡ false = ground (arith, e, nz) in
    elim (Bool-cases (m x).used) [
      | inl on ↦
          rw (more, e, on, count_used_lem xs rounds m (m x).next (count + 1) (omega arith) l)
            (omega arith)
      | inr off ↦
          rw (more, e, off, count_used_lem xs rounds m (m x).next count (omega arith) l) refl
    ]

-- Where the links spell a list of at most 16 processes, `process_get_by_pid` gives the first of them
-- that is in use and has the pid, and NULL when there is none, and `process_count` the number of
-- those in use.
pub process_get_by_pid_lem :
    (k : Kernel) (xs : List ℕ)
    → Linked (next_of k.process_table) k.process_head xs
    → length xs ≤ process_max_count
    → ((pid : ℕ) → process_get_by_pid k pid ≡ first_with_pid k.process_table pid xs)
      × (process_count k ≡ used_count k.process_table xs)
unfolding process_get_by_pid process_count
process_get_by_pid_lem k xs l le = (
  λ pid. find_pid_lem xs process_max_count k.process_table pid k.process_head le l,
  count_used_lem xs process_max_count k.process_table k.process_head 0 le l ∙ omega arith,
)

-- All that a search looks at.
abbrev pub identity : Process → ℕ × Bool × ℕ
identity p = (p.next, p.used, p.pid)

find_pid-same :
    (rounds : ℕ) (m q : ℕ → Process) (pid cursor : ℕ)
    → ((a : ℕ) → identity (q a) ≡ identity (m a))
    → find_pid rounds q pid cursor ≡ find_pid rounds m pid cursor
unfolding find_pid
find_pid-same zero m q pid cursor same = refl
find_pid-same (suc rounds) m q pid cursor same =
    let next : (q cursor).next ≡ (m cursor).next = ap (λ i. i.0) (same cursor) in
    let used : (q cursor).used ≡ (m cursor).used = ap (λ i. i.1) (same cursor) in
    let number : (q cursor).pid ≡ (m cursor).pid = ap (λ i. i.2) (same cursor) in
    rw (next, used, number, find_pid-same rounds m q pid (m cursor).next same) refl

pub process_get_by_pid-same :
    (k q : Kernel) (pid : ℕ)
    → q.process_head ≡ k.process_head
    → ((a : ℕ) → identity (q.process_table a) ≡ identity (k.process_table a))
    → process_get_by_pid q pid ≡ process_get_by_pid k pid
unfolding process_get_by_pid
process_get_by_pid-same k q pid head same =
    rw head
      (find_pid-same process_max_count k.process_table q.process_table pid k.process_head same)

-- What is found has the pid.
find_pid-has_pid :
    (rounds : ℕ) (m : ℕ → Process) (pid cursor : ℕ)
    → find_pid rounds m pid cursor ≢ 0
    → has_pid (m (find_pid rounds m pid cursor)) pid ≡ true
unfolding find_pid
find_pid-has_pid zero m pid cursor nz = absurd (nz refl)
find_pid-has_pid (suc rounds) m pid cursor nz = elim (Bool-cases (cursor == 0)) [
  | inl end ↦ absurd (nz (rw end refl))
  | inr more ↦ elim (Bool-cases (has_pid (m cursor) pid)) [
    | inl here ↦ rw (more, here) here
    | inr on ↦
        let step : find_pid (suc rounds) m pid cursor ≡ find_pid rounds m pid (m cursor).next =
          rw (more, on) refl in
        subst (λ r. has_pid (m r) pid ≡ true) (sym step)
          (find_pid-has_pid rounds m pid (m cursor).next (λ e. nz (step ∙ e)))
  ]
]

pub process_get_by_pid-has_pid :
    (k : Kernel) (pid : ℕ)
    → process_get_by_pid k pid ≢ 0
    → has_pid (k.process_table (process_get_by_pid k pid)) pid ≡ true
unfolding process_get_by_pid
process_get_by_pid-has_pid k pid nz =
    find_pid-has_pid process_max_count k.process_table pid k.process_head nz
