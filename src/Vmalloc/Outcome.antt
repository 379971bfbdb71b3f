-- ===== src/Vmalloc/Outcome.antt =====
-- vmalloc, kernel/src/vmalloc.c: the list of regions behind an allocation.
use kfs.Base.{
  ℕ, suc, ◌+◌, ◌*◌, ◌≤◌, ◌<◌, ◌≡◌, ◌≢◌, ◌⊎◌, refl, ap, ◌∙◌, Bool, true, false, ◌==◌, inl, inr,
  Option, none, some, List, ◌∷◌, arith, All, length, add32, mul32, ltb,
}
use kfs.Paging.{Paging}
use kfs.Kmalloc.{Heap, kmalloc, kfree}
use kfs.Vmalloc.{
  Vmalloc, vmalloc_start, vmalloc_end, add_region, pages_of, map_frames, end_vmalloc, begin_vmalloc,
  vmalloc, vsize,
}
use kfs.Vmalloc.Chain.{highest_of_bound}
use kfs.Vmalloc.Free.{IsRegions}
use kfs.Vmalloc.Place.{add_region-IsRegions, vsize-add_region, added_current}

abbrev extended : Vmalloc → Heap → Paging → Vmalloc
extended v heap paging = record v { heap = heap; paging = paging }

-- What a call that finds room, a descriptor and frames gives.
placed_result :
    (fuel : ℕ) (v : Vmalloc) (size region : ℕ) (heap : Heap) (paging : Paging)
    → size ≢ 0
    → add32 v.vmalloc_current (mul32 (pages_of size) 4096) ≤ vmalloc_end
    → kmalloc fuel v.heap 24 ≡ some (region, heap)
    → region ≢ 0
    → map_frames (pages_of size) v.paging v.vmalloc_current 0 ≡ some (true, paging)
    → vmalloc fuel v size
      ≡ some (v.vmalloc_current, add_region (extended v heap paging) region size (pages_of size))
unfolding vmalloc begin_vmalloc end_vmalloc
placed_result fuel v size region heap paging given room e nz mapped =
    let a : (size == 0) ≡ false = ground (arith, given) in
    let b : ltb vmalloc_end (add32 v.vmalloc_current (mul32 (pages_of size) 4096)) ≡ false =
      ground (arith, room) in
    let c : (region == 0) ≡ false = ground (arith, nz) in
    let begun : begin_vmalloc v size (some (region, heap))
        ≡ some
            (v.vmalloc_current, add_region (extended v heap paging) region size (pages_of size)) =
      rw c (ap (end_vmalloc (record v { heap = heap }) region size (pages_of size)) mapped) in
    rw (a, b) (ap (begin_vmalloc v size) e ∙ begun)

-- What a call without a frame for each page gives.
given_back :
    (fuel : ℕ) (v : Vmalloc) (size region : ℕ) (heap back : Heap) (paging : Paging)
    → size ≢ 0
    → add32 v.vmalloc_current (mul32 (pages_of size) 4096) ≤ vmalloc_end
    → kmalloc fuel v.heap 24 ≡ some (region, heap)
    → region ≢ 0
    → kfree heap region ≡ some back
    → map_frames (pages_of size) v.paging v.vmalloc_current 0 ≡ some (false, paging)
    → vmalloc fuel v size ≡ some (0, extended v back paging)
unfolding vmalloc begin_vmalloc end_vmalloc
given_back fuel v size region heap back paging given room e nz freed mapped =
    let a : (size == 0) ≡ false = ground (arith, given) in
    let b : ltb vmalloc_end (add32 v.vmalloc_current (mul32 (pages_of size) 4096)) ≡ false =
      ground (arith, room) in
    let c : (region == 0) ≡ false = ground (arith, nz) in
    let w : Vmalloc = record v { heap = heap } in
    let undo : Option Heap → Option (ℕ × Vmalloc) =
      λ o. elim o [ none ↦ none | some h ↦ some (0, extended v h paging) ] in
    let begun : begin_vmalloc v size (some (region, heap)) ≡ some (0, extended v back paging) =
      rw c (ap (end_vmalloc w region size (pages_of size)) mapped ∙ ap undo freed) in
    rw (a, b) (ap (begin_vmalloc v size) e ∙ begun)

-- What vmalloc gives when each page has a frame.
pub record Placed (fuel : ℕ) (v : Vmalloc) (xs : List ℕ) (size region : ℕ) : Type 0 where
  pub state : Vmalloc
  pub result : vmalloc fuel v size ≡ some (v.vmalloc_current, state)
  pub valid : IsRegions state (region ∷ xs)
  pub current : state.vmalloc_current ≡ v.vmalloc_current + pages_of size * 4096
  pub size_kept : (n : ℕ) → vsize (suc n) state v.vmalloc_current ≡ size

-- What vmalloc gives when it finds no frame for one of the pages.
pub record GivenBack (fuel : ℕ) (v : Vmalloc) (xs : List ℕ) (size : ℕ) : Type 0 where
  pub state : Vmalloc
  pub result : vmalloc fuel v size ≡ some (0, state)
  pub valid : IsRegions state xs
  pub current : state.vmalloc_current ≡ v.vmalloc_current

-- For a well-formed list, a size that is not 0 and whose pages fit below the end of the space, and
-- a descriptor from kmalloc that is not on the list and that kfree would take back: when the pages
-- get their frames, vmalloc gives the old break, the descriptor is the first of the list, the break
-- moves by the pages, and vsize gives the size for the address; when they do not, it gives NULL,
-- and list and break are as before. Either way the regions stay well-formed.
pub vmalloc_lem :
    (fuel : ℕ) (v : Vmalloc) (xs : List ℕ) (size region : ℕ) (heap back : Heap) (done : Bool)
    (paging : Paging)
    → IsRegions v xs
    → length xs < 4294967294
    → size ≢ 0
    → v.vmalloc_current + pages_of size * 4096 ≤ vmalloc_end
    → kmalloc fuel v.heap 24 ≡ some (region, heap)
    → region ≢ 0
    → All (λ x. region ≢ x) xs
    → kfree heap region ≡ some back
    → map_frames (pages_of size) v.paging v.vmalloc_current 0 ≡ some (done, paging)
    → ((done ≡ true) × Placed fuel v xs size region) ⊎ ((done ≡ false) × GivenBack fuel v xs size)
vmalloc_lem fuel v xs size region heap back true paging i few given room e nz out freed mapped =
    let w = extended v heap paging in
    let start = (highest_of_bound xs v.regions vmalloc_start).0 in
    let j : IsRegions w xs = record {
      links = i.links;
      different = i.different;
      count = i.count;
      few = i.few;
      low = i.low;
      high = i.high;
    } in
    let pages = pages_of size in
    inl (
      refl,
      record {
        state = add_region w region size pages;
        result =
            placed_result fuel v size region heap paging given (omega (arith, room)) e nz mapped;
        valid = add_region-IsRegions w xs region size j nz out few (omega (arith, room));
        current = added_current w region size pages (omega (arith, room));
        size_kept = λ n. vsize-add_region n w region size nz (omega (arith, start, i.low));
      },
    )
vmalloc_lem fuel v xs size region heap back false paging i few given room e nz out freed mapped =
    inr (
      refl,
      record {
        state = extended v back paging;
        result =
            given_back fuel v size region heap back paging given (omega (arith, room)) e nz freed
              mapped;
        valid = record {
          links = i.links;
          different = i.different;
          count = i.count;
          few = i.few;
          low = i.low;
          high = i.high;
        };
        current = refl;
      },
    )
