-- ===== src/Process/Same.antt =====
-- Changes of the process table that leave the list of all processes alone, kernel/src/process.c.
use kfs.Base.{ℕ, zero, suc, ◌≡◌, refl, sym, ap, ◌∙◌, ◌||◌, ◌==◌, Bool-cases, inl, inr, ==_iff}
use kfs.Process.{Process, update}
use kfs.Process.Links.{
  process_link_child, join_child, chain_child, adopt_child, process_unlink_child, unlink_sibling,
  cut_sibling, set_sibling,
}
use kfs.Process.Find.{identity}

-- A table whose records have kept their links, their pids and whether they are in use.
abbrev pub Kept : (ℕ → Process) → (ℕ → Process) → Type 0
Kept m q = (a : ℕ) → identity (q a) ≡ identity (m a)

pub update-Kept :
    (m : ℕ → Process) (at : ℕ) (p : Process) → identity p ≡ identity (m at) → Kept m (update m at p)
update-Kept m at p e a = elim (Bool-cases (a == at)) [
  | inl here ↦ rw here (e ∙ sym (ap (λ z. identity (m z)) ((==_iff a at).0 here)))
  | inr apart ↦ rw apart refl
]

pub Kept-trans : (m q r : ℕ → Process) → Kept m q → Kept q r → Kept m r
Kept-trans m q r f g a = g a ∙ f a

cut_sibling-Kept :
    (m : ℕ → Process) (previous process : ℕ) → Kept m (cut_sibling m previous process)
cut_sibling-Kept m previous process =
    let next = (m process).next_sibling in
    let parent = (m process).parent in
    let first : ℕ → Process = update m parent (record (m parent) { children = next }) in
    let inner : ℕ → Process = set_sibling m previous next in
    let finish : (ℕ → Process) → ℕ → Process =
      λ q. update q process (record (q process) { next_sibling = 0; parent = 0 }) in
    elim (Bool-cases (previous == 0)) [
      | inl start ↦ rw start (
          Kept-trans m first (finish first)
            (update-Kept m parent (record (m parent) { children = next }) refl)
            (update-Kept first process (record (first process) { next_sibling = 0; parent = 0 })
              refl))
      | inr later ↦ rw later (
          Kept-trans m inner (finish inner)
            (update-Kept m previous (record (m previous) { next_sibling = next }) refl)
            (update-Kept inner process (record (inner process) { next_sibling = 0; parent = 0 })
              refl))
    ]

unlink_sibling-Kept :
    (rounds : ℕ) (m : ℕ → Process) (process previous cursor : ℕ)
    → Kept m (unlink_sibling rounds m process previous cursor)
unfolding unlink_sibling
unlink_sibling-Kept zero m process previous cursor = λ a. refl
unlink_sibling-Kept (suc rounds) m process previous cursor = elim (Bool-cases (cursor == 0)) [
  | inl end ↦ rw end (λ a. refl)
  | inr more ↦ elim (Bool-cases (cursor == process)) [
    | inl here ↦ rw (more, here) (cut_sibling-Kept m previous process)
    | inr on ↦ rw (more, on) (unlink_sibling-Kept rounds m process cursor (m cursor).next_sibling)
  ]
]

pub process_unlink_child-Kept :
    (m : ℕ → Process) (process : ℕ) → Kept m (process_unlink_child m process)
unfolding process_unlink_child
process_unlink_child-Kept m process = elim (Bool-cases (process == 0 || (m process).parent == 0)) [
  | inl no_parent ↦ rw no_parent (λ a. refl)
  | inr has_parent ↦
      rw has_parent (unlink_sibling-Kept 17 m process 0 (m (m process).parent).children)
]

join_child-Kept : (m : ℕ → Process) (parent child : ℕ) → Kept m (join_child m parent child)
unfolding join_child
join_child-Kept m parent child =
    update-Kept m child (record (m child) { parent = parent; next_sibling = 0 }) refl

chain_child-Kept : (m : ℕ → Process) (parent child : ℕ) → Kept m (chain_child m parent child)
unfolding chain_child
chain_child-Kept m parent child = elim (Bool-cases ((m parent).children == 0)) [
  | inl only ↦ rw only (λ a. refl)
  | inr others ↦
      rw others (update-Kept m child (record (m child) { next_sibling = (m parent).children }) refl)
]

adopt_child-Kept : (m : ℕ → Process) (parent child : ℕ) → Kept m (adopt_child m parent child)
unfolding adopt_child
adopt_child-Kept m parent child = update-Kept m parent (record (m parent) { children = child }) refl

pub process_link_child-Kept :
    (m : ℕ → Process) (parent child : ℕ) → Kept m (process_link_child m parent child)
unfolding process_link_child
process_link_child-Kept m parent child =
    let joined = join_child m parent child in
    let chained = chain_child joined parent child in
    let join = join_child-Kept m parent child in
    elim (Bool-cases (parent == 0)) [
      | inl orphan ↦ rw orphan join
      | inr has_parent ↦ rw has_parent (
          Kept-trans m chained (adopt_child chained parent child)
            (Kept-trans m joined chained join (chain_child-Kept joined parent child))
            (adopt_child-Kept chained parent child))
    ]
