-- ===== src/Vmalloc/Free.antt =====
-- vfree, kernel/src/vmalloc.c: what it does to the list of regions and to the break.
use kfs.Base.{
  ℕ, ◌≤◌, ◌<◌, ◌≡◌, ◌≢◌, ◌⊎◌, refl, ap, subst, ◌∙◌, true, false, ◌==◌, inl, inr, none, some, List,
  [], ◌∷◌, ◌++◌, arith, All, length, ==_iff, Bool-cases,
}
use kfs.Kmalloc.{Heap, kfree}
use kfs.Ring.{Linked, Distinct, Linked-same}
use kfs.Vmalloc.{
  VmRegion, Vmalloc, region_end, is_region, clear_magic, vmalloc_find_region, unlink_region,
  retire_region, end_vfree, vfree, vmalloc_highest_end, vmalloc_start, vmalloc_end,
}
use kfs.Vmalloc.Chain.{
  next_region, highest_of, highest_from_lem, highest_of_same, Found, find_region_lem,
}
use kfs.Vmalloc.Cut.{Distinct-drop, length-drop, unlink_region_lem, region_end-unlink}

-- What holds of the regions between the calls: they are a list of different descriptors, the
-- counter says how many, and none ends above the break, which is not above the end of the space.
pub record IsRegions (v : Vmalloc) (xs : List ℕ) : Type 0 where
  pub links : Linked (next_region v.regions) v.region_list xs
  pub different : Distinct xs
  pub count : v.total_regions ≡ length xs
  pub few : length xs < 4294967295
  pub low : highest_of v.regions xs vmalloc_start ≤ v.vmalloc_current
  pub high : v.vmalloc_current ≤ vmalloc_end

-- A list without one of its regions is no higher.
pub highest_of_mono :
    (m : ℕ → VmRegion) (xs : List ℕ) (a b : ℕ) → a ≤ b → highest_of m xs a ≤ highest_of m xs b
unfolding highest_of
highest_of_mono m [] a b le = le
highest_of_mono m (x ∷ xs) a b le = highest_of_mono m xs _ _ (ground (arith, le))

highest_of_drop :
    (m : ℕ → VmRegion) (before after : List ℕ) (x highest : ℕ)
    → highest_of m (before ++ after) highest ≤ highest_of m (before ++ x ∷ after) highest
unfolding highest_of
highest_of_drop m [] after x highest = highest_of_mono m after _ _ (ground arith)
highest_of_drop m (y ∷ before) after x highest = highest_of_drop m before after x _

next_kept : (m : ℕ → VmRegion) (region a : ℕ) → (clear_magic m region a).next ≡ (m a).next
next_kept m region a = elim (Bool-cases (a == region)) [
  | inl e ↦ rw (e, (==_iff a region).0 e) refl
  | inr ne ↦ rw ne refl
]

clear_end :
    (m : ℕ → VmRegion) (region a : ℕ) → region_end (clear_magic m region a) ≡ region_end (m a)
clear_end m region a = elim (Bool-cases (a == region)) [
  | inl e ↦ rw (e, (==_iff a region).0 e) refl
  | inr ne ↦ rw ne refl
]

pub all : (P : ℕ → Type 0) (xs : List ℕ) → ((x : ℕ) → P x) → All P xs
all P [] f = tt
all P (x ∷ xs) f = (f x, all P xs f)

total_kept :
    (v : Vmalloc) (region previous : ℕ)
    → (unlink_region v region previous).total_regions ≡ v.total_regions
unfolding unlink_region
total_kept v region previous = elim (Bool-cases (previous == 0)) [
  | inl e ↦ rw e refl
  | inr ne ↦ rw ne refl
]

-- The state behind a successful vfree.
abbrev freed : ℕ → Vmalloc → ℕ × ℕ → Heap → Vmalloc
freed fuel v (region, previous) heap =
    let retired = retire_region (unlink_region v region previous) region in
    record retired { heap = heap; vmalloc_current = vmalloc_highest_end fuel retired }

freed_result :
    (fuel : ℕ) (v : Vmalloc) (ptr : ℕ) (heap : Heap)
    → let r = vmalloc_find_region fuel v ptr in
      ptr ≢ 0
      → r.0 ≢ 0
      → kfree v.heap r.0 ≡ some heap
      → vfree fuel v ptr ≡ some (freed fuel v r heap)
unfolding vfree end_vfree
freed_result fuel v ptr heap given found e =
    let r = vmalloc_find_region fuel v ptr in
    let c : (ptr == 0) ≡ false = ground (arith, given) in
    let d : (r.0 == 0) ≡ false = ground (arith, found) in
    rw (c, d) (ap (end_vfree fuel (retire_region (unlink_region v r.0 r.1) r.0)) e)

freed-IsRegions :
    (fuel : ℕ) (v : Vmalloc) (xs : List ℕ) (ptr : ℕ) (r : ℕ × ℕ) (heap : Heap)
    → length xs < fuel
    → IsRegions v xs
    → (f : Found v.regions ptr 0 xs r)
    → IsRegions (freed fuel v r heap) (f.before ++ f.after)
      × ((freed fuel v r heap).vmalloc_current
          ≡ highest_of v.regions (f.before ++ f.after) vmalloc_start)
unfolding retire_region vmalloc_highest_end unlink_region
freed-IsRegions fuel v xs ptr (region, previous) heap le i f =
    let ys = f.before ++ f.after in
    let w = unlink_region v region previous in
    let m = clear_magic w.regions region in
    let size = ap length f.list ∙ length-drop f.before f.after region in
    let cut =
      unlink_region_lem f.before f.after v region previous
        (subst (Linked (next_region v.regions) v.region_list) f.list i.links)
        (subst Distinct f.list i.different) f.behind in
    let links =
      Linked-same (next_region w.regions) (next_region m) ys w.region_list
        (all _ ys (next_kept w.regions region)) cut in
    let walked =
      highest_from_lem ys fuel m w.region_list vmalloc_start (omega (arith, le, size)) links in
    let ends =
      highest_of_same ys m v.regions vmalloc_start
        (all _ ys (λ a. clear_end w.regions region a ∙ region_end-unlink v region previous a)) in
    let drop = highest_of_drop v.regions f.before f.after region vmalloc_start in
    let old =
      subst (λ zs. highest_of v.regions zs vmalloc_start ≤ v.vmalloc_current) f.list i.low in
    (
      record {
        links = links;
        different = Distinct-drop f.before f.after region (subst Distinct f.list i.different);
        count = omega (arith, total_kept v region previous, i.count, size, i.few);
        few = omega (arith, i.few, size);
        low = omega (arith, walked);
        high = omega (arith, walked, ends, drop, old, i.high);
      },
      walked ∙ ends,
    )

not_found :
    (fuel : ℕ) (v : Vmalloc) (ptr : ℕ)
    → ptr ≢ 0
    → (vmalloc_find_region fuel v ptr).0 ≡ 0
    → vfree fuel v ptr ≡ none
unfolding vfree
not_found fuel v ptr given gone =
    let c : (ptr == 0) ≡ false = ground (arith, given) in
    let d : ((vmalloc_find_region fuel v ptr).0 == 0) ≡ true = ground (arith, gone) in
    rw (c, d) refl

-- What vfree gives for an address: the panic where no region of the list starts there, and else
-- a state whose list is without the first that does.
pub record Freed (fuel : ℕ) (v : Vmalloc) (xs : List ℕ) (ptr : ℕ) : Type 0 where
  pub found : Found v.regions ptr 0 xs (vmalloc_find_region fuel v ptr)
  pub state : Vmalloc
  pub result : vfree fuel v ptr ≡ some state
  pub valid : IsRegions state (found.before ++ found.after)
  pub current :
      state.vmalloc_current ≡ highest_of v.regions (found.before ++ found.after) vmalloc_start

-- For a list of different regions that the counter counts and that end below the break, with more
-- fuel than regions, and an address on which kfree of the descriptor does not panic: vfree panics
-- when no live region starts there; else it takes the first that does off the list, counts it, and
-- moves the break to the highest end of those that stay, and the list stays well-formed.
pub vfree_lem :
    (fuel : ℕ) (v : Vmalloc) (xs : List ℕ) (ptr : ℕ) (heap : Heap)
    → length xs < fuel
    → IsRegions v xs
    → ptr ≢ 0
    → kfree v.heap (vmalloc_find_region fuel v ptr).0 ≡ some heap
    → ((vfree fuel v ptr ≡ none) × All (λ x. is_region (v.regions x) ptr ≡ false) xs)
      ⊎ Freed fuel v xs ptr
unfolding vmalloc_find_region
vfree_lem fuel v xs ptr heap le i given e =
    elim (find_region_lem xs fuel v.regions ptr 0 v.region_list le i.links) [
      | inl (gone, others) ↦ inl (not_found fuel v ptr given gone, others)
      | inr f ↦
          let r = vmalloc_find_region fuel v ptr in
          let (valid, end) = freed-IsRegions fuel v xs ptr r heap le i f in
          inr (record {
            found = f;
            state = freed fuel v r heap;
            result = freed_result fuel v ptr heap given f.given e;
            valid = valid;
            current = end;
          })
    ]
