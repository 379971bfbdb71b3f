-- ===== src/Process/Keep.antt =====
-- That each operation of kernel/src/process.c keeps the list of all processes in order.
use kfs.Base.{
  ℕ, ◌≡◌, ◌≢◌, ◌⊎◌, refl, sym, ap, subst, Bool, true, false, not, ◌&&◌, ◌||◌, ◌==◌, if◌then◌else◌,
  Option, none, some, List, [], ◌∷◌, ◌++◌, arith, All, Bool-cases, inl, inr,
}
use kfs.Process.{Kernel, is_zombie, modify}
use kfs.Process.Links.{process_get_by_pid}
use kfs.Process.Lifecycle.{
  process_create_internal, process_release, Waited, no_child, still_running, reaped, begin_wait,
  stop_waiting, process_wait, copy_fields, copy_pages, copy_process, fork_process,
}
use kfs.Process.Scheduler.{can_run, pick_next_process, scheduler_init, chosen}
use kfs.Process.Chosen.{off_lem, pick-member, pick-live}
use kfs.Process.Boot.{process_init}
use kfs.Process.Find.{identity}
use kfs.Ring.{Linked, Distinct, remove}
use kfs.Ring.Members.{member}
use kfs.Process.Unlink.{next_of}
use kfs.Process.Invariant.{IsRing, member_head, process_release-IsRing}
use kfs.Process.MapSame.{Same}
use kfs.Process.Created.{Same-IsRing}
use kfs.Process.Creation.{Created, process_create_internal-IsRing}
use kfs.Process.Moves.{stop_waiting-Same, begin_wait-Same, OnSome}
use kfs.Process.Turns.{OnPair}
use kfs.Process.Fields.{copied-Same}
use kfs.Process.Steps.{after_wait}

abbrev pub HasRing : Kernel → Type 0
HasRing k = (xs : List ℕ) × IsRing k xs

pub process_init-HasRing : (directories : ℕ) (k : Kernel) → HasRing (process_init directories k)
unfolding process_init Linked Distinct member
process_init-HasRing directories k = (
  1 ∷ [],
  record {
    links = (refl, omega arith, refl);
    different = (tt, tt);
    inside = ((omega arith, omega arith), tt);
    used = (refl, tt);
    head = refl;
    cursor = refl;
  },
)

pub release_kept :
    (k : Kernel) (process : ℕ)
    → (process == 0 || process == k.kernel_process) ≡ true
    → process_release k process ≡ k
unfolding process_release
release_kept k process kept = rw kept refl

-- A process that is released, whichever it is.
pub release-HasRing : (k : Kernel) (process : ℕ) → HasRing k → HasRing (process_release k process)
release-HasRing k process (xs, v) =
    elim (Bool-cases (process == 0 || process == k.kernel_process)) [
      | inl kept ↦ subst HasRing (sym (release_kept k process kept)) (xs, v)
      | inr given ↦ (
        remove process xs,
        process_release-IsRing k xs process v (ground (arith, given)) (ground (arith, given)),
      )
    ]

pub choose_wait :
    (k : Kernel) (c : Bool) (x y : Waited)
    → HasRing (after_wait k x)
    → HasRing (after_wait k y)
    → HasRing (after_wait k (if c then x else y))
choose_wait k true x y hx hy = hx
choose_wait k false x y hx hy = hy

pub wait-HasRing :
    (k : Kernel) (parent pid : ℕ) → HasRing k → HasRing (after_wait k (process_wait k parent pid))
unfolding process_wait
wait-HasRing k parent pid (xs, v) =
    let child = process_get_by_pid k pid in
    let c = k.process_table child in
    let stopped = stop_waiting k parent in
    let collected = reaped c.exit_code (process_release stopped child) in
    let asleep = still_running (begin_wait k parent pid) in
    choose_wait k (child == 0 || (not (parent == k.kernel_process) && not (c.parent == parent)))
      no_child (if is_zombie c.status then collected else asleep) (xs, v)
      (choose_wait k (is_zombie c.status) collected asleep
        (release-HasRing stopped child (xs, Same-IsRing xs (stop_waiting-Same k parent) v))
        (xs, Same-IsRing xs (begin_wait-Same k parent pid) v))

pub Created-HasRing : (k q : Kernel) (xs : List ℕ) (p : ℕ) → Created xs (some (p, q)) → HasRing q
unfolding Created
Created-HasRing k q xs p v = (if p == 0 then xs else xs ++ p ∷ [], v)

pub chosen-HasRing :
    (k : Kernel) → HasRing k → pick_next_process k ≢ 0 → HasRing (chosen k (pick_next_process k))
chosen-HasRing k (xs, v) found = (
  xs,
  record {
    links = v.links;
    different = v.different;
    inside = v.inside;
    used = v.used;
    head = v.head;
    cursor = pick-member k xs v found;
  },
)

pub some_lem :
    (P : Kernel → Type 0) (o : Option Kernel) (q : Kernel) → o ≡ some q → OnSome P o → P q
unfolding OnSome
some_lem P o q e h = subst (OnSome P) e h

pub pair_lem :
    (P : Kernel → Type 0) (o : Option (ℕ × Kernel)) (value : ℕ) (q : Kernel)
    → o ≡ some (value, q)
    → OnPair P o
    → P q
unfolding OnPair
pair_lem P o value q e h = subst (OnPair P) e h

pub Same-HasRing : (k q q' : Kernel) → q ≡ q' → HasRing k → Same k q' → HasRing q
Same-HasRing k q q' e (xs, v) s = subst HasRing (sym e) (xs, Same-IsRing xs s v)

pub keeps_links :
    (k q : Kernel)
    → q.process_table ≡ k.process_table
    → q.process_head ≡ k.process_head
    → q.kernel_process ≡ k.kernel_process
    → q.scheduler_cursor ≡ k.scheduler_cursor
    → Same k q
keeps_links k q table head kernel cursor = record {
  table = λ a. ap (λ m. identity (m a)) table;
  head = head;
  kernel = kernel;
  cursor = cursor;
}

-- What `pick_next_process` gives, whether the scheduler is on or off.
abbrev pub Picked : Kernel → List ℕ → Type 0
Picked k xs =
    ((pick_next_process k ≡ 0)
      × ((k.scheduler_enabled ≡ false) ⊎ All (λ x. can_run (k.process_table x) ≡ false) xs))
    ⊎ ((pick_next_process k ≢ 0)
        × (can_run (k.process_table (pick_next_process k)) ≡ true)
        × (member (pick_next_process k) xs ≡ true))

pub pick_any : (k : Kernel) (xs : List ℕ) → IsRing k xs → Picked k xs
pick_any k xs v = elim (Bool-cases k.scheduler_enabled) [
  | inr off ↦ inl (off_lem k off, inl off)
  | inl on ↦ elim (pick-live k xs v on) [
    | inl (nothing, unable) ↦ inl (nothing, inr unable)
    | inr (found, able) ↦ inr (found, able, pick-member k xs v found)
  ]
]

-- The cursor goes back to the kernel's process, the first on the list.
pub scheduler_init-HasRing : (k : Kernel) → HasRing k → HasRing (scheduler_init k)
unfolding scheduler_init
scheduler_init-HasRing k (xs, v) = (
  xs,
  record {
    links = v.links;
    different = v.different;
    inside = v.inside;
    used = v.used;
    head = v.head;
    cursor =
        subst (λ a. member a xs ≡ true) v.head
          (member_head (next_of k.process_table) k.process_head k.scheduler_cursor xs v.links
            v.cursor);
  },
)

module _ (directories bootstrap : ℕ) where
  pub copied-HasRing :
      (source : ℕ) (o : Option (ℕ × Kernel))
      → OnPair HasRing o
      → OnPair HasRing (copy_process directories bootstrap source o)
  unfolding copy_process OnPair
  copied-HasRing source none h = tt
  copied-HasRing source (some (child, k)) (xs, v) =
      let p = k.process_table source in
      let memory =
        copy_pages directories bootstrap k.paging.memory p.memory (k.process_table child).memory in
      let copied =
        modify (record k { paging = record k.paging { memory = memory } }) child
          (copy_fields directories bootstrap p) in
      elim (child == 0) as (λ b. OnPair HasRing (if b then some (0, k) else some (child, copied))) [
        | true ↦ (xs, v)
        | false ↦ (xs, Same-IsRing xs (copied-Same directories bootstrap k child p) v)
      ]

  pub Created-OnPair : (xs : List ℕ) (o : Option (ℕ × Kernel)) → Created xs o → OnPair HasRing o
  unfolding OnPair Created
  Created-OnPair xs none v = tt
  Created-OnPair xs (some (p, k)) v = (if p == 0 then xs else xs ++ p ∷ [], v)

  pub fork_process-HasRing :
      (k : Kernel) (source : ℕ)
      → HasRing k
      → OnPair HasRing (fork_process directories bootstrap k source)
  unfolding fork_process OnPair
  fork_process-HasRing k source (xs, v) =
      let p = k.process_table source in
      let made =
        process_create_internal directories bootstrap k source p.owner 0 p.entry
          p.memory.code_size in
      let forked = copy_process directories bootstrap source made in
      elim (source == 0 || source == k.kernel_process || p.entry == 0)
        as (λ b. OnPair HasRing (if b then some (0, k) else forked)) [
          | true ↦ (xs, v)
          | false ↦ copied-HasRing source made (
              Created-OnPair xs made (
                process_create_internal-IsRing directories bootstrap k xs source p.owner 0 p.entry
                  p.memory.code_size v))
        ]
