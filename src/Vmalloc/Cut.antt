-- ===== src/Vmalloc/Cut.antt =====
-- Taking a region off the list, kernel/src/vmalloc.c.
use kfs.Base.{
  ℕ, suc, ◌≡◌, ◌≢◌, refl, sym, ap, subst, false, ◌==◌, inl, inr, List, [], ◌∷◌, ◌++◌, arith, All,
  length, ==_iff, Bool-cases,
}
use kfs.Ring.{Linked, Distinct, Linked-same, All-map}
use kfs.Vmalloc.{VmRegion, Vmalloc, region_end, set_next_region, unlink_region}
use kfs.Vmalloc.Chain.{next_region, last}

set_next_self : (m : ℕ → VmRegion) (at region : ℕ) → (set_next_region m at region at).next ≡ region
set_next_self m at region = ground arith

set_next_elsewhere :
    (m : ℕ → VmRegion) (at region a : ℕ) → at ≢ a → set_next_region m at region a ≡ m a
set_next_elsewhere m at region a ne = ground arith

All-last :
    (P : ℕ → Type 0) (before rest : List ℕ) (x : ℕ) → All P (x ∷ before ++ rest) → P (last x before)
unfolding last
All-last P [] rest x (h, all) = h
All-last P (y ∷ before) rest x (h, all) = All-last P before rest y all

pub All-drop :
    (P : ℕ → Type 0) (before after : List ℕ) (x : ℕ)
    → All P (before ++ x ∷ after)
    → All P (before ++ after)
All-drop P [] after x (h, all) = all
All-drop P (y ∷ before) after x (h, all) = (h, All-drop P before after x all)

pub Distinct-drop :
    (before after : List ℕ) (x : ℕ) → Distinct (before ++ x ∷ after) → Distinct (before ++ after)
unfolding Distinct
Distinct-drop [] after x (h, d) = d
Distinct-drop (y ∷ before) after x (h, d) =
    (All-drop (λ z. y ≢ z) before after x h, Distinct-drop before after x d)

pub length-drop :
    (before after : List ℕ) (x : ℕ) → length (before ++ x ∷ after) ≡ suc (length (before ++ after))
length-drop [] after x = refl
length-drop (y ∷ before) after x = ap suc (length-drop before after x)

Linked-given : (f : ℕ → ℕ) (xs : List ℕ) (head : ℕ) → Linked f head xs → All (λ x. x ≢ 0) xs
unfolding Linked
Linked-given f [] head l = tt
Linked-given f (x ∷ xs) head (e, nz, l) = (nz, Linked-given f xs (f x) l)

-- The write to the region before the one that goes.
cut_chain :
    (before after : List ℕ) (x region current : ℕ) (m : ℕ → VmRegion)
    → Linked (next_region m) current (x ∷ before ++ region ∷ after)
    → Distinct (x ∷ before ++ region ∷ after)
    → let cut = set_next_region m (last x before) (m region).next in
      Linked (next_region cut) current (x ∷ before ++ after)
unfolding Linked Distinct last
cut_chain [] after x region current m (e, nz, (er, nr, l)) ((nx, out), d) =
    let n = (m region).next in
    let cut = set_next_region m x n in
    let kept =
      Linked-same (next_region m) (next_region cut) after n
        (All-map after (λ y ne. ap (λ r. r.next) (set_next_elsewhere m x n y ne)) out) l in
    (e, nz, subst (λ h. Linked (next_region cut) h after) (sym (set_next_self m x n)) kept)
cut_chain (y ∷ before) after x region current m (e, nz, l) (out, d) =
    let n = (m region).next in
    let at = last y before in
    let cut = set_next_region m at n in
    let apart = All-last (λ z. x ≢ z) before (region ∷ after) y out in
    let same = ap (λ r. r.next) (set_next_elsewhere m at n x (λ q. apart (sym q))) in
    let kept = cut_chain before after y region (m x).next m l d in
    (e, nz, subst (λ h. Linked (next_region cut) h (y ∷ before ++ after)) (sym same) kept)

unlink_behind :
    (v : Vmalloc) (region previous : ℕ)
    → (previous == 0) ≡ false
    → unlink_region v region previous
      ≡ record v { regions = set_next_region v.regions previous (v.regions region).next }
unfolding unlink_region
unlink_behind v region previous c = rw c refl

-- Behind the last of the regions before it, a region is taken off the list.
pub unlink_region_lem :
    (before after : List ℕ) (v : Vmalloc) (region previous : ℕ)
    → Linked (next_region v.regions) v.region_list (before ++ region ∷ after)
    → Distinct (before ++ region ∷ after)
    → previous ≡ last 0 before
    → let w = unlink_region v region previous in
      Linked (next_region w.regions) w.region_list (before ++ after)
unfolding Linked unlink_region last
unlink_region_lem [] after v region previous (e, nz, l) d p =
    let list : ℕ → Type 0 =
      λ a. let w = unlink_region v region a in Linked (next_region w.regions) w.region_list after in
    subst list (sym p) l
unlink_region_lem (x ∷ before) after v region previous l d p =
    let at = last x before in
    let given =
      All-last (λ z. z ≢ 0) before (region ∷ after) x
        (Linked-given (next_region v.regions) (x ∷ before ++ region ∷ after) v.region_list l) in
    let c : (at == 0) ≡ false = ground (arith, given) in
    let kept = cut_chain before after x region v.region_list v.regions l d in
    let list : Vmalloc → Type 0 =
      λ w. Linked (next_region w.regions) w.region_list (x ∷ before ++ after) in
    subst (λ a. list (unlink_region v region a)) (sym p)
      (subst list (sym (unlink_behind v region at c)) kept)

end_kept :
    (m : ℕ → VmRegion) (at region a : ℕ)
    → region_end (set_next_region m at region a) ≡ region_end (m a)
end_kept m at region a = elim (Bool-cases (a == at)) [
  | inl e ↦ rw (e, (==_iff a at).0 e) refl
  | inr ne ↦ rw ne refl
]

-- No region's end changes.
pub region_end-unlink :
    (v : Vmalloc) (region previous a : ℕ)
    → region_end ((unlink_region v region previous).regions a) ≡ region_end (v.regions a)
unfolding unlink_region
region_end-unlink v region previous a = elim (Bool-cases (previous == 0)) [
  | inl e ↦ rw e refl
  | inr ne ↦ rw ne (end_kept v.regions previous (v.regions region).next a)
]
