-- ===== src/Process/Append.antt =====
-- Linking a process at the end of the list of all processes, kernel/src/process.c.
use kfs.Base.{
  ℕ, zero, suc, ◌<◌, ◌≡◌, ◌≢◌, refl, sym, ap, subst, ◌∙◌, true, false, ◌==◌, List, [], ◌∷◌, ◌++◌,
  arith, All, length,
}
use kfs.Process.{Process, process_max_count}
use kfs.Process.Links.{set_next, find_tail, process_link_global}
use kfs.Ring.{Linked, Distinct, last_of, All-last_of}
use kfs.Process.Unlink.{next_of, apart, apart-set_next, set_next_elsewhere}

-- The walk ends at the last process of the list.
find_tail_lem :
    (xs : List ℕ) (x rounds : ℕ) (m : ℕ → Process)
    → length xs < rounds
    → Linked (next_of m) (m x).next xs
    → find_tail rounds m x ≡ last_of x xs
unfolding Linked find_tail last_of
find_tail_lem xs x zero m le l = absurd (omega arith)
find_tail_lem [] x (suc rounds) m le l =
    let stop : ((m x).next == 0) ≡ true = ground (arith, l) in rw stop refl
find_tail_lem (y ∷ ys) x (suc rounds) m le (e, ny, l) =
    let more : ((m x).next == 0) ≡ false = ground (arith, e, ny) in
    rw (more, e) (find_tail_lem ys y rounds m (omega arith) l)

-- A link from the last process to a new one.
Linked-append :
    (xs : List ℕ) (x : ℕ) (m : ℕ → Process) (process : ℕ)
    → process ≢ 0
    → (m process).next ≡ 0
    → All (λ y. y ≢ process) (x ∷ xs)
    → Linked (next_of m) (m x).next xs
    → Distinct (x ∷ xs)
    → let q = set_next m (last_of x xs) process in
      Linked (next_of q) (q x).next (xs ++ process ∷ [])
unfolding Linked Distinct last_of
Linked-append [] x m process pz last (out, outs) l d = (ground arith, pz, ground arith)
Linked-append (y ∷ ys) x m process pz last (out, outs) (e, ny, l) (xout, d) =
    let far : last_of y ys ≢ x = λ q. All-last_of (λ w. x ≢ w) y ys xout (sym q) in
    (
      ap (λ q. q.next) (set_next_elsewhere m (last_of y ys) process x far) ∙ e,
      ny,
      Linked-append ys y m process pz last outs l d,
    )

-- For a list of fewer than 16 different processes, `process_link_global` puts a process that is not
-- on it, and whose own link is NULL, at its end, and changes nothing but links.
pub process_link_global_lem :
    (xs : List ℕ) (head : ℕ) (m : ℕ → Process) (process : ℕ)
    → length xs < process_max_count
    → process ≢ 0
    → (m process).next ≡ 0
    → All (λ y. y ≢ process) xs
    → Linked (next_of m) head xs
    → Distinct xs
    → let r = process_link_global (head, m) process in
      Linked (next_of r.1) r.0 (xs ++ process ∷ []) × ((a : ℕ) → apart (r.1 a) ≡ apart (m a))
unfolding process_link_global Linked
process_link_global_lem [] head m process le pz last out l d =
    let stop : (head == 0) ≡ true = ground (arith, l) in rw stop ((refl, pz, last), λ a. refl)
process_link_global_lem (x ∷ xs) head m process le pz last out (e, nz, l) d =
    let more : (head == 0) ≡ false = ground (arith, e, nz) in
    let got : process_link_global (head, m) process ≡ (x, set_next m (last_of x xs) process) =
      rw (more, e, find_tail_lem xs x process_max_count m (omega arith) l) refl in
    subst
      (λ r.
        Linked (next_of r.1) r.0 (x ∷ xs ++ process ∷ []) × ((a : ℕ) → apart (r.1 a) ≡ apart (m a)))
      (sym got)
      (
        (refl, nz, Linked-append xs x m process pz last out l d),
        apart-set_next m (last_of x xs) process,
      )
