-- ===== src/Process/Unlink.antt =====
-- Linking a process to the list of all processes, and taking it off, kernel/src/process.c: what
-- happens to the list that the `next` pointers spell.
use kfs.Base.{
  ℕ, zero, suc, ◌+◌, ◌≤◌, ◌<◌, ◌≡◌, ◌≢◌, refl, sym, ap, subst, ◌∙◌, inl, inr, true, false, ◌==◌,
  List, [], ◌∷◌, arith, All, length, ==_iff, Bool-cases,
}
use kfs.Process.{Process, process_max_count}
use kfs.Process.Links.{set_next, unlink_next, process_unlink_global}
use kfs.Ring.{Linked, Distinct, remove, Linked-same, All-map, All-both}

abbrev pub next_of : (ℕ → Process) → ℕ → ℕ
next_of m a = (m a).next

-- A record without its place in the list.
abbrev pub apart : Process → Process
apart p = record p { next = 0 }

pub set_next_elsewhere :
    (m : ℕ → Process) (at process : ℕ) (a : ℕ) → at ≢ a → set_next m at process a ≡ m a
set_next_elsewhere m at process a ne = ground arith

pub apart-set_next :
    (m : ℕ → Process) (at process a : ℕ) → apart (set_next m at process a) ≡ apart (m a)
apart-set_next m at process a = elim (Bool-cases (a == at)) [
  | inl e ↦ rw (e, (==_iff a at).0 e) refl
  | inr ne ↦ rw ne refl
]

-- The two writes that take a process off behind another one.
abbrev cut : (ℕ → Process) → ℕ → ℕ → ℕ → Process
cut m previous process = set_next (set_next m previous (m process).next) process 0

cut_previous :
    (m : ℕ → Process) (previous process : ℕ)
    → previous ≢ process
    → (cut m previous process previous).next ≡ (m process).next
cut_previous m previous process ne = ground arith

cut_elsewhere :
    (m : ℕ → Process) (previous process a : ℕ)
    → previous ≢ a
    → process ≢ a
    → cut m previous process a ≡ m a
cut_elsewhere m previous process a na nb = ground arith

apart-cut :
    (m : ℕ → Process) (previous process a : ℕ) → apart (cut m previous process a) ≡ apart (m a)
apart-cut m previous process a =
    let n = (m process).next in
    apart-set_next (set_next m previous n) process 0 a ∙ apart-set_next m previous n a

Linked-cut :
    (ys : List ℕ) (m : ℕ → Process) (previous process head : ℕ)
    → All (λ y. process ≢ y) ys
    → All (λ y. previous ≢ y) ys
    → Linked (next_of m) head ys
    → Linked (next_of (cut m previous process)) head ys
Linked-cut ys m previous process head out before =
    Linked-same (next_of m) (next_of (cut m previous process)) ys head (
      All-map ys (λ y ne. ap (λ q. q.next) (cut_elsewhere m previous process y ne.1 ne.0))
        (All-both _ _ ys out before))

-- Behind a record that stays, the walk takes the process out of the rest of the list.
unlink_behind :
    (ys : List ℕ) (rounds head : ℕ) (m : ℕ → Process) (process previous cursor : ℕ)
    → length ys < rounds
    → previous ≢ 0
    → (m previous).next ≡ cursor
    → Linked (next_of m) cursor ys
    → Distinct (previous ∷ ys)
    → let r = unlink_next rounds (head, m) process previous cursor in
      (r.0 ≡ head)
      × Linked (next_of r.1) ((r.1 previous).next) (remove process ys)
      × ((a : ℕ) → apart (r.1 a) ≡ apart (m a))
      × ((a : ℕ) → previous ≢ a → All (λ y. y ≢ a) ys → r.1 a ≡ m a)
unfolding unlink_next Linked Distinct remove
unlink_behind ys zero head m process previous cursor le nz e l d = absurd (omega arith)
unlink_behind [] (suc rounds) head m process previous cursor le nz e l d =
    let stop : (cursor == 0) ≡ true = ground (arith, l) in
    rw stop (refl, e ∙ l, λ a. refl, λ a ne out. refl)
unlink_behind (y ∷ ys) (suc rounds) head m process previous cursor le nz e (ey, ny, l)
      ((py, pys), (yys, d)) =
    let more : (cursor == 0) ≡ false = ground (arith, ey, ny) in
    elim (Bool-cases (y == process)) [
      | inl here ↦
          let same : y ≡ process = (==_iff y process).0 here in
          let ne : previous ≢ process = rw (← same) py in
          let inner : (previous == 0) ≡ false = ground (arith, nz) in
          rw (more, ey, here, inner)
            (
              refl,
              subst (λ h. Linked (next_of (cut m previous process)) h ys)
                  (sym (cut_previous m previous process ne))
                  (Linked-cut ys m previous process (m process).next
                    (subst (λ z. All (λ w. z ≢ w) ys) same yys) pys
                    (subst (λ z. Linked (next_of m) (next_of m z) ys) same l)),
              apart-cut m previous process,
              λ a na out. cut_elsewhere m previous process a na (rw (← same) out.0),
            )
      | inr on ↦
          let (eh, l', same, elsewhere) =
            unlink_behind ys rounds head m process y (m y).next (omega arith) ny refl l (yys, d) in
          let kept = elsewhere previous (λ q. py (sym q)) (All-map ys (λ z q p. q (sym p)) pys) in
          rw (more, ey, on)
            (
              eh,
              (ap (λ q. q.next) kept ∙ e ∙ ey, ny, l'),
              same,
              λ a na out. elsewhere a out.0 out.1,
            )
    ]

unlink_first :
    (xs : List ℕ) (rounds head : ℕ) (m : ℕ → Process) (process : ℕ)
    → length xs < rounds
    → Linked (next_of m) head xs
    → Distinct xs
    → let r = unlink_next rounds (head, m) process 0 head in
      Linked (next_of r.1) r.0 (remove process xs) × ((a : ℕ) → apart (r.1 a) ≡ apart (m a))
unfolding Linked Distinct remove unlink_next
unlink_first xs zero head m process le l d = absurd (omega arith)
unlink_first [] (suc rounds) head m process le l d =
    let stop : (head == 0) ≡ true = ground (arith, l) in rw stop (l, λ a. refl)
unlink_first (x ∷ xs) (suc rounds) head m process le (e, nz, l) (out, d) =
    let more : (head == 0) ≡ false = ground (arith, e, nz) in
    elim (Bool-cases (x == process)) [
      | inl here ↦
          let same : x ≡ process = (==_iff x process).0 here in
          let out' : All (λ w. process ≢ w) xs = subst (λ z. All (λ w. z ≢ w) xs) same out in
          rw (more, e, here)
            (
              Linked-same (next_of m) (next_of (set_next m process 0)) xs (m process).next
                  (All-map xs (λ y ne. ap (λ q. q.next) (set_next_elsewhere m process 0 y ne)) out')
                  (subst (λ z. Linked (next_of m) (next_of m z) xs) same l),
              apart-set_next m process 0,
            )
      | inr on ↦
          let (eh, l', same, elsewhere) =
            unlink_behind xs rounds x m process x (m x).next (omega arith) nz refl l (out, d) in
          rw (more, e, on) ((eh, nz, l'), same)
    ]

-- For a list of at most 16 different processes, `process_unlink_global` takes the process off, or
-- changes nothing when it is not on the list: the links then spell the list without it, and nothing
-- but links changes.
pub process_unlink_global_lem :
    (xs : List ℕ) (head : ℕ) (m : ℕ → Process) (process : ℕ)
    → length xs ≤ process_max_count
    → Linked (next_of m) head xs
    → Distinct xs
    → let r = process_unlink_global (head, m) process in
      Linked (next_of r.1) r.0 (remove process xs) × ((a : ℕ) → apart (r.1 a) ≡ apart (m a))
unfolding process_unlink_global
process_unlink_global_lem xs head m process le l d =
    unlink_first xs (process_max_count + 1) head m process (omega arith) l d
