-- ===== src/Vmalloc/Chain.antt =====
-- The list of regions that the `next` pointers spell, kernel/src/vmalloc.c: what the walks find on
-- it, and what taking a region off does to it.
use kfs.Base.{
  ℕ, zero, suc, ◌≤◌, ◌<◌, ◌≡◌, ◌≢◌, ◌⊎◌, refl, ap, ◌∙◌, inl, inr, true, false, ◌==◌, List, [], ◌∷◌,
  ◌++◌, arith, All, length, Bool-cases,
}
use kfs.Ring.{Linked}
use kfs.Vmalloc.{VmRegion, region_end, higher, highest_from, is_region, find_region}

abbrev pub next_region : (ℕ → VmRegion) → ℕ → ℕ
next_region m a = (m a).next

-- The highest end on a list, and `highest` on an empty one.
unfoldable pub highest_of : (ℕ → VmRegion) → List ℕ → ℕ → ℕ
highest_of m [] highest = highest
highest_of m (x ∷ xs) highest = highest_of m xs (higher highest (region_end (m x)))

pub highest_from_lem :
    (xs : List ℕ) (fuel : ℕ) (m : ℕ → VmRegion) (current highest : ℕ)
    → length xs < fuel
    → Linked (next_region m) current xs
    → highest_from fuel m current highest ≡ highest_of m xs highest
unfolding highest_from highest_of Linked
highest_from_lem xs zero m current highest le l = absurd (omega arith)
highest_from_lem [] (suc fuel) m current highest le l =
    let stop : (current == 0) ≡ true = ground (arith, l) in rw stop refl
highest_from_lem (x ∷ xs) (suc fuel) m current highest le (e, nz, l) =
    let more : (x == 0) ≡ false = ground (arith, nz) in
    rw (e, more)
      (highest_from_lem xs fuel m (m x).next (higher highest (region_end (m x))) (omega (arith, le))
        l)

-- No end on the list is higher.
pub highest_of_bound :
    (xs : List ℕ) (m : ℕ → VmRegion) (highest : ℕ)
    → (highest ≤ highest_of m xs highest) × All (λ x. region_end (m x) ≤ highest_of m xs highest) xs
unfolding highest_of
highest_of_bound [] m highest = (omega arith, tt)
highest_of_bound (x ∷ xs) m highest =
    let end = region_end (m x) in
    let (low, all) = highest_of_bound xs m (higher highest end) in
    let from : highest ≤ higher highest end = ground arith in
    let to : end ≤ higher highest end = ground arith in
    (omega (arith, from, low), (omega (arith, to, low), all))

pub highest_of_same :
    (xs : List ℕ) (f m : ℕ → VmRegion) (highest : ℕ)
    → All (λ x. region_end (f x) ≡ region_end (m x)) xs
    → highest_of f xs highest ≡ highest_of m xs highest
unfolding highest_of
highest_of_same [] f m highest same = refl
highest_of_same (x ∷ xs) f m highest (here, same) =
    ap (λ e. highest_of f xs (higher highest e)) here
    ∙ highest_of_same xs f m (higher highest (region_end (m x))) same

-- The last of the list, and `previous` where it is empty.
unfoldable pub last : ℕ → List ℕ → ℕ
last previous [] = previous
last previous (x ∷ xs) = last x xs

-- What a search for an address finds: nothing, or the first region that starts there, with the one
-- before it.
pub record Found (m : ℕ → VmRegion) (addr previous : ℕ) (xs : List ℕ) (r : ℕ × ℕ) : Type 0 where
  pub before : List ℕ
  pub after : List ℕ
  pub list : xs ≡ before ++ r.0 ∷ after
  pub others : All (λ x. is_region (m x) addr ≡ false) before
  pub here : is_region (m r.0) addr ≡ true
  pub given : r.0 ≢ 0
  pub behind : r.1 ≡ last previous before

pub find_region_lem :
    (xs : List ℕ) (fuel : ℕ) (m : ℕ → VmRegion) (addr previous current : ℕ)
    → length xs < fuel
    → Linked (next_region m) current xs
    → let r = find_region fuel m addr previous current in
      ((r.0 ≡ 0) × All (λ x. is_region (m x) addr ≡ false) xs) ⊎ Found m addr previous xs r
unfolding find_region Linked last
find_region_lem xs zero m addr previous current le l = absurd (omega arith)
find_region_lem [] (suc fuel) m addr previous current le l =
    let stop : (current == 0) ≡ true = ground (arith, l) in rw stop (inl (refl, tt))
find_region_lem (x ∷ xs) (suc fuel) m addr previous current le (e, nz, l) =
    let more : (x == 0) ≡ false = ground (arith, nz) in
    elim (Bool-cases (is_region (m x) addr)) [
      | inl here ↦
          rw (e, more, here)
            (inr (record {
              before = [];
              after = xs;
              list = refl;
              others = tt;
              here = here;
              given = nz;
              behind = refl;
            }))
      | inr other ↦
          rw (e, more, other)
            (elim (find_region_lem xs fuel m addr x (m x).next (omega (arith, le)) l) [
              | inl (none, all) ↦ inl (none, (refl, all))
              | inr f ↦ inr (record {
                before = x ∷ f.before;
                after = f.after;
                list = ap (λ ys. x ∷ ys) f.list;
                others = (other, f.others);
                here = f.here;
                given = f.given;
                behind = f.behind;
              })
            ])
    ]
