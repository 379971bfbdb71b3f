-- ===== src/Vmalloc/Place.antt =====
-- vmalloc, kernel/src/vmalloc.c: what a new region does to the list, and vsize to the region.
use kfs.Base.{
  ℕ, suc, ◌+◌, ◌*◌, ◌≤◌, ◌<◌, ◌≡◌, ◌≢◌, refl, sym, ap, subst, ◌∙◌, true, false, ◌==◌, if◌then◌else◌,
  List, ◌∷◌, arith, All, length, add32, mul32,
}
use kfs.Ring.{Linked, Distinct, Linked-same, All-map}
use kfs.Vmalloc.{
  VmRegion, Vmalloc, region_end, higher, is_region, vm_magic, vmalloc_start, vmalloc_end,
  vmalloc_find_region, find_region, add_region, pages_of, vsize,
}
use kfs.Vmalloc.Chain.{next_region, highest_of, highest_of_same, highest_of_bound}
use kfs.Vmalloc.Free.{IsRegions}
use kfs.Vmalloc.Extend.{highest_of_below}

store_elsewhere :
    (m : ℕ → VmRegion) (r : VmRegion) (region a : ℕ)
    → region ≢ a
    → (if a == region then r else m a) ≡ m a
store_elsewhere m r region a ne = ground arith

store_here :
    (m : ℕ → VmRegion) (r : VmRegion) (region : ℕ) → (if region == region then r else m region) ≡ r
store_here m r region = ground arith

-- The list with a region before it.
pub add_region-IsRegions :
    (v : Vmalloc) (xs : List ℕ) (region size : ℕ)
    → IsRegions v xs
    → region ≢ 0
    → All (λ x. region ≢ x) xs
    → length xs < 4294967294
    → v.vmalloc_current + mul32 (pages_of size) 4096 ≤ vmalloc_end
    → IsRegions (add_region v region size (pages_of size)) (region ∷ xs)
unfolding add_region Linked Distinct highest_of
add_region-IsRegions v xs region size i nz out few room =
    let bytes = mul32 (pages_of size) 4096 in
    let top = add32 v.vmalloc_current bytes in
    let r : VmRegion = record {
      virt_addr = v.vmalloc_current;
      size = size;
      mapped_size = bytes;
      num_pages = pages_of size;
      next = v.region_list;
      magic = vm_magic;
    } in
    let m : ℕ → VmRegion = λ a. if a == region then r else v.regions a in
    let here : m region ≡ r = store_here v.regions r region in
    let there = All-map xs (λ x ne. store_elsewhere v.regions r region x ne) out in
    let tail =
      Linked-same (next_region v.regions) (next_region m) xs v.region_list
        (All-map xs (λ x e. ap (λ q. q.next) e) there) i.links in
    let c = higher vmalloc_start (region_end (m region)) in
    let end = ap region_end here in
    let start = (highest_of_bound xs v.regions vmalloc_start).0 in
    let below =
      highest_of_below v.regions xs vmalloc_start c top (omega (arith, i.low, room))
        (ground (arith, end, start, i.low, room)) in
    let same = highest_of_same xs m v.regions c (All-map xs (λ x e. ap region_end e) there) in
    record {
      links =
          (refl, nz, subst (λ h. Linked (next_region m) h xs) (sym (ap (λ q. q.next) here)) tail);
      different = (out, i.different);
      count = omega (arith, i.count, few);
      few = omega (arith, few);
      low = omega (arith, same, below);
      high = omega (arith, room);
    }

vsize_first :
    (fuel : ℕ) (v : Vmalloc) (ptr : ℕ)
    → v.region_list ≢ 0
    → ptr ≢ 0
    → is_region (v.regions v.region_list) ptr ≡ true
    → vsize (suc fuel) v ptr ≡ (v.regions v.region_list).size
unfolding vsize vmalloc_find_region find_region
vsize_first fuel v ptr nz given here =
    let a : (v.region_list == 0) ≡ false = ground (arith, nz) in
    let b : (ptr == 0) ≡ false = ground (arith, given) in
    let found : find_region (suc fuel) v.regions ptr 0 v.region_list ≡ (v.region_list, 0) =
      rw (a, here) refl in
    let size_of : ℕ → ℕ = λ r. if r == 0 then 0 else (v.regions r).size in
    rw b (ap (λ r. size_of r.0) found ∙ rw a refl)

pub vsize-add_region :
    (fuel : ℕ) (v : Vmalloc) (region size : ℕ)
    → region ≢ 0
    → v.vmalloc_current ≢ 0
    → vsize (suc fuel) (add_region v region size (pages_of size)) v.vmalloc_current ≡ size
unfolding add_region
vsize-add_region fuel v region size nz given =
    let r : VmRegion = record {
      virt_addr = v.vmalloc_current;
      size = size;
      mapped_size = mul32 (pages_of size) 4096;
      num_pages = pages_of size;
      next = v.region_list;
      magic = vm_magic;
    } in
    let same : (v.vmalloc_current == v.vmalloc_current) ≡ true = ground arith in
    let here = store_here v.regions r region in
    let live = ap (λ q. is_region q v.vmalloc_current) here in
    vsize_first fuel (add_region v region size (pages_of size)) v.vmalloc_current nz given
      (live ∙ rw same refl)
    ∙ ap (λ q. q.size) here

pub added_current :
    (v : Vmalloc) (region size pages : ℕ)
    → v.vmalloc_current + pages * 4096 ≤ vmalloc_end
    → (add_region v region size pages).vmalloc_current ≡ v.vmalloc_current + pages * 4096
unfolding add_region
added_current v region size pages room = omega (arith, room)
