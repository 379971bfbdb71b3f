-- ===== src/Vmalloc/Extend.antt =====
-- vbrk, kernel/src/vmalloc.c: how it moves the break.
use kfs.Base.{
  ℕ, ◌+◌, ◌≤◌, ◌<◌, ◌≡◌, ◌≢◌, ◌⊎◌, refl, ap, ◌∙◌, Bool, true, false, ◌==◌, inl, inr, if◌then◌else◌,
  Option, none, some, List, [], ◌∷◌, arith, length, ==_iff, Bool-cases, add32, ltb,
}
use kfs.Vmalloc.{
  VmRegion, Vmalloc, region_end, higher, vmalloc_start, vmalloc_end, vbrk, vmalloc_highest_end,
}
use kfs.Vmalloc.Chain.{highest_of, highest_from_lem, highest_of_bound}
use kfs.Vmalloc.Free.{IsRegions}

-- A start that is not above the limit leaves a list below it there.
pub highest_of_below :
    (m : ℕ → VmRegion) (xs : List ℕ) (a c limit : ℕ)
    → highest_of m xs a ≤ limit
    → c ≤ limit
    → highest_of m xs c ≤ limit
unfolding highest_of
highest_of_below m [] a c limit le lc = lc
highest_of_below m (x ∷ xs) a c limit le lc =
    let top = higher a (region_end (m x)) in
    let (bound, rest) = highest_of_bound xs m top in
    highest_of_below m xs top (higher c (region_end (m x))) limit le (ground (arith, bound, le, lc))

abbrev moved : Vmalloc → ℕ → Vmalloc
moved v c = record v { vmalloc_current = c }

moved-IsRegions :
    (v : Vmalloc) (xs : List ℕ) (c : ℕ)
    → IsRegions v xs
    → highest_of v.regions xs vmalloc_start ≤ c
    → c ≤ vmalloc_end
    → IsRegions (moved v c) xs
moved-IsRegions v xs c i low high = record {
  links = i.links;
  different = i.different;
  count = i.count;
  few = i.few;
  low = low;
  high = high;
}

-- What vbrk gives when it does not refuse.
pub record Moved (fuel : ℕ) (v : Vmalloc) (xs : List ℕ) (increment : ℕ) : Type 0 where
  pub state : Vmalloc
  pub result : vbrk fuel v increment ≡ some (v.vmalloc_current, state)
  pub valid : IsRegions state xs
  pub current :
      state.vmalloc_current
      ≡ higher (add32 v.vmalloc_current increment) (highest_of v.regions xs vmalloc_start)
  pub regions : state.regions ≡ v.regions

at_rest :
    (fuel : ℕ) (v : Vmalloc) (increment : ℕ)
    → increment ≡ 0
    → vbrk fuel v increment ≡ some (v.vmalloc_current, v)
unfolding vbrk
at_rest fuel v increment e = rw e refl

grown :
    (fuel : ℕ) (v : Vmalloc) (increment : ℕ)
    → increment ≢ 0
    → increment < 0x8000_0000
    → vbrk fuel v increment ≡ (
        if ltb vmalloc_end (add32 v.vmalloc_current increment)
        then none
        else some (v.vmalloc_current, moved v (add32 v.vmalloc_current increment)))
unfolding vbrk
grown fuel v increment given small =
    let c : (increment == 0) ≡ false = ground (arith, given) in
    let d : ltb increment 0x8000_0000 ≡ true = ground (arith, small) in rw (c, d) refl

shrunk :
    (fuel : ℕ) (v : Vmalloc) (increment : ℕ)
    → 0x8000_0000 ≤ increment
    → vbrk fuel v increment
      ≡ some (
        v.vmalloc_current,
        moved v (higher (add32 v.vmalloc_current increment) (vmalloc_highest_end fuel v)),
      )
unfolding vbrk
shrunk fuel v increment large =
    let c : (increment == 0) ≡ false = ground (arith, large) in
    let d : ltb increment 0x8000_0000 ≡ false = ground (arith, large) in rw (c, d) refl

-- With more fuel than regions, and an increment that does not take the break below 0: vbrk gives -1
-- just for a positive increment that takes the break above the end of the space; else it gives the
-- old break and moves it by the increment, but not below the highest end of a region, and the
-- regions stay well-formed.
pub vbrk_lem :
    (fuel : ℕ) (v : Vmalloc) (xs : List ℕ) (increment : ℕ)
    → length xs < fuel
    → IsRegions v xs
    → increment < 4294967296
    → (increment < 0x8000_0000) ⊎ (4294967296 ≤ v.vmalloc_current + increment)
    → ((vbrk fuel v increment ≡ none)
        × (increment < 0x8000_0000)
        × (vmalloc_end < v.vmalloc_current + increment))
      ⊎ Moved fuel v xs increment
unfolding vmalloc_highest_end
vbrk_lem fuel v xs increment le i word (inr up) =
    let walked = highest_from_lem xs fuel v.regions v.region_list vmalloc_start le i.links in
    let top = highest_of v.regions xs vmalloc_start in
    let c = higher (add32 v.vmalloc_current increment) top in
    let large : 0x8000_0000 ≤ increment = omega (arith, up, i.high) in
    inr (record {
      state = moved v c;
      result =
          shrunk fuel v increment large
          ∙ ap
              (λ e.
                some (v.vmalloc_current, moved v (higher (add32 v.vmalloc_current increment) e)))
              walked;
      valid = moved-IsRegions v xs c i (ground arith) (ground (arith, i.low, i.high, up, word));
      current = refl;
      regions = refl;
    })
vbrk_lem fuel v xs increment le i word (inl small) = elim (Bool-cases (increment == 0)) [
  | inl e ↦ inr (record {
    state = v;
    result = at_rest fuel v increment ((==_iff increment 0).0 e);
    valid = i;
    current = ground (arith, i.low, i.high, e);
    regions = refl;
  })
  | inr ne ↦
      let b = add32 v.vmalloc_current increment in
      let r = grown fuel v increment (ground (arith, ne)) small in
      let choice : Bool → Option (ℕ × Vmalloc) =
        λ t. if t then none else some (v.vmalloc_current, moved v b) in
      elim (Bool-cases (ltb vmalloc_end b)) [
        | inl past ↦ inl (r ∙ ap choice past, small, ground (arith, past, small, i.high))
        | inr within ↦ inr (record {
          state = moved v b;
          result = r ∙ ap choice within;
          valid =
              moved-IsRegions v xs b i (ground (arith, i.low, i.high, small))
                (ground (arith, within));
          current = ground (arith, i.low, i.high, small);
          regions = refl;
        })
      ]
]
