-- ===== src/Pmm/Regions.antt =====
-- The functions that mark, free and query frames by address, and the statistics.
use kfs.Base.{
  ℕ, zero, suc, ◌+◌, ◌*◌, ◌/◌, ◌≤◌, ◌<◌, ◌≡◌, refl, Bool, true, false, ◌&&◌, ◌∙◌, arith, ltb, leb,
  ltb→lt, ◌==◌, if◌then◌else◌, Bool-cases, inl, inr, add32,
}
use kfs.Pmm.Bitmap.Count.{count_used, count_used-le}
use kfs.Pmm.Invariant.{
  IsValid, is_used, claim_frame-IsValid, is_used-claim_frame, release_frame-IsValid,
  is_used-release_frame, total_frames-claim_frame, total_frames-release_frame,
  total_memory-claim_frame, total_memory-release_frame,
}
use kfs.Pmm.{
  Pmm, claim_frame, release_frame, for_frames, free_run, pmm_free_frame, pmm_free_frames,
  pmm_is_frame_allocated, pmm_mark_frame_used, pmm_mark_region_used, pmm_mark_region_free,
  page_align_up, addr_to_pfn, pmm_get_stats, pmm_get_free_memory,
}

-- `frame` lies in the range from `lo` up to `hi`.
abbrev pub within : ℕ → ℕ → ℕ → Bool
within lo hi frame = leb lo frame && ltb frame hi

-- What it is to set every frame of a range to `bit`, among those that exist, and nothing else.
pub record Marked (bit : Bool) (p : Pmm) (lo hi : ℕ) (q : Pmm) : Type 0 where
  pub valid : IsValid q
  pub same_total : q.total_frames ≡ p.total_frames
  pub same_memory : q.total_memory ≡ p.total_memory
  pub bits :
      (j : ℕ) → j < p.total_frames → is_used q j ≡ (if within lo hi j then bit else is_used p j)

Marked-empty :
    (bit : Bool) (p : Pmm) (lo hi : ℕ)
    → IsValid p
    → (lo < hi → p.total_frames ≤ lo)
    → Marked bit p lo hi p
Marked-empty bit p lo hi v h = record {
  valid = v;
  same_total = refl;
  same_memory = refl;
  bits = λ j lt. ground (arith, h);
}

Marked-cons :
    (bit : Bool) (p q r : Pmm) (lo hi : ℕ)
    → lo < hi
    → Marked bit p lo (lo + 1) q
    → Marked bit q (lo + 1) hi r
    → Marked bit p lo hi r
Marked-cons bit p q r lo hi h a b = record {
  valid = b.valid;
  same_total = b.same_total ∙ a.same_total;
  same_memory = b.same_memory ∙ a.same_memory;
  bits = λ j lt. ground (arith, a.bits j lt, b.bits j (omega (arith, a.same_total)));
}

claim_frame-Marked :
    (p : Pmm) (f : ℕ) → IsValid p → f < p.total_frames → Marked true p f (f + 1) (claim_frame p f)
claim_frame-Marked p f v h = record {
  valid = claim_frame-IsValid v f h;
  same_total = total_frames-claim_frame p f;
  same_memory = total_memory-claim_frame p f;
  bits = λ j lt. ground (arith, is_used-claim_frame v f h j);
}

release_frame-Marked :
    (p : Pmm) (f : ℕ)
    → IsValid p
    → f < p.total_frames
    → Marked false p f (f + 1) (release_frame p f)
release_frame-Marked p f v h = record {
  valid = release_frame-IsValid v f h;
  same_total = total_frames-release_frame p f;
  same_memory = total_memory-release_frame p f;
  bits = λ j lt. ground (arith, is_used-release_frame v f h j);
}

-- The loop of the two functions on regions, for a body that sets one frame's bit.
module _ (bit : Bool) (body : Pmm → ℕ → Pmm)
    (step : (p : Pmm) (f : ℕ)
      → IsValid p
      → f < p.total_frames
      → Marked bit p f (f + 1) (body p f)) where
  for_frames-Marked :
      (rounds hi : ℕ) (p : Pmm) (lo : ℕ)
      → IsValid p
      → p.total_frames ≤ lo + rounds
      → Marked bit p lo hi (for_frames body rounds hi p lo)
  unfolding for_frames
  for_frames-Marked zero hi p lo v enough = Marked-empty bit p lo hi v (λ _. omega arith)
  for_frames-Marked (suc rounds) hi p lo v enough =
      elim (Bool-cases (ltb lo hi && ltb lo p.total_frames)) [
        | inl more ↦
            let one : Marked bit p lo (lo + 1) (body p lo) = step p lo v (ground arith) in
            rw more (
              Marked-cons bit p (body p lo) _ lo hi (ground arith) one (
                for_frames-Marked rounds hi (body p lo) (lo + 1) one.valid
                  (omega (arith, one.same_total))))
        | inr done ↦ rw done (Marked-empty bit p lo hi v (λ h. ground arith))
      ]

release_in_range-Marked :
    (p : Pmm) (f : ℕ)
    → IsValid p
    → Marked false p f (f + 1) (if ltb f p.total_frames then release_frame p f else p)
release_in_range-Marked p f v = elim (Bool-cases (ltb f p.total_frames)) [
  | inl h ↦ rw h (release_frame-Marked p f v (ltb→lt _ _ h))
  | inr h ↦ rw h (Marked-empty false p f (f + 1) v (λ _. ground arith))
]

free_run-Marked :
    (count : ℕ) (p : Pmm) (lo hi : ℕ)
    → hi ≡ lo + count
    → hi < 4294967296
    → IsValid p
    → Marked false p lo hi (free_run p count lo)
unfolding free_run
free_run-Marked zero p lo hi e h v = Marked-empty false p lo hi v (λ lt. absurd (omega arith))
free_run-Marked (suc count) p lo hi e h v =
    let one : Marked false p lo (lo + 1) (if ltb lo p.total_frames then release_frame p lo else p) =
      release_in_range-Marked p lo v in
    let next : add32 lo 1 ≡ lo + 1 = omega arith in
    rw next (
      Marked-cons false p _ _ lo hi (omega arith) one
        (free_run-Marked count _ (lo + 1) hi (omega arith) h one.valid))

-- Some byte of the frame lies in the region, or the region ends in it; the whole frame lies in it.
abbrev pub touches : ℕ → ℕ → ℕ → Bool
touches base length frame = ltb base ((frame + 1) * 4096) && ltb (frame * 4096) (base + length)

abbrev pub inside : ℕ → ℕ → ℕ → Bool
inside base length frame = leb base (frame * 4096) && leb ((frame + 1) * 4096) (base + length)

region_used-Marked :
    {p : Pmm} (base length : ℕ)
    → IsValid p
    → Marked true p
        (addr_to_pfn base)
        (addr_to_pfn (page_align_up (add32 base length)))
        (pmm_mark_region_used p base length)
unfolding pmm_mark_region_used
region_used-Marked {p} base length v =
    for_frames-Marked true claim_frame claim_frame-Marked p.total_frames _ p (addr_to_pfn base) v
      (omega arith)

region_free-Marked :
    {p : Pmm} (base length : ℕ)
    → IsValid p
    → Marked false p
        (addr_to_pfn (page_align_up base))
        (addr_to_pfn (add32 base length))
        (pmm_mark_region_free p base length)
unfolding pmm_mark_region_free
region_free-Marked {p} base length v =
    for_frames-Marked false release_frame release_frame-Marked p.total_frames _ p _ v (omega arith)

-- Whatever the region, wrapped or not, the two functions keep the state valid and its size.
pub mark_region-IsValid :
    {p : Pmm} (base length : ℕ)
    → IsValid p
    → IsValid (pmm_mark_region_used p base length)
      × IsValid (pmm_mark_region_free p base length)
      × ((pmm_mark_region_used p base length).total_frames ≡ p.total_frames)
      × ((pmm_mark_region_free p base length).total_frames ≡ p.total_frames)
mark_region-IsValid base length v = (
  (region_used-Marked base length v).valid,
  (region_free-Marked base length v).valid,
  (region_used-Marked base length v).same_total,
  (region_free-Marked base length v).same_total,
)

-- For a region that ends a page below the end of the address space, `pmm_mark_region_used` marks
-- as used the frames that the region touches, and no other.
pub pmm_mark_region_used_lem :
    {p : Pmm} (base length : ℕ)
    → IsValid p
    → base + length + 4095 < 4294967296
    → (j : ℕ) → j < p.total_frames
    → is_used (pmm_mark_region_used p base length) j
      ≡ (if touches base length j then true else is_used p j)
pmm_mark_region_used_lem base length v h j lt =
    ground (arith, (region_used-Marked base length v).bits j lt)

-- For a region that starts a page below the end of the address space and ends in it,
-- `pmm_mark_region_free` frees the frames that lie inside the region, and no other.
pub pmm_mark_region_free_lem :
    {p : Pmm} (base length : ℕ)
    → IsValid p
    → base + length < 4294967296
    → base + 4095 < 4294967296
    → (j : ℕ) → j < p.total_frames
    → is_used (pmm_mark_region_free p base length) j
      ≡ (if inside base length j then false else is_used p j)
pmm_mark_region_free_lem base length v h k j lt =
    ground (arith, (region_free-Marked base length v).bits j lt)

-- `pmm_free_frames` keeps the state valid, frees the `count` frames from the one of `addr` on, as
-- far as they exist, and no other.
pub pmm_free_frames_lem :
    {p : Pmm} (addr count : ℕ)
    → IsValid p
    → addr / 4096 + count < 4294967296
    → IsValid (pmm_free_frames p addr count)
      × ((j : ℕ)
          → j < p.total_frames
          → is_used (pmm_free_frames p addr count) j
            ≡ (if within (addr / 4096) (addr / 4096 + count) j then false else is_used p j))
unfolding pmm_free_frames
pmm_free_frames_lem {p} addr count v h =
    let m : Marked false p (addr / 4096) (addr / 4096 + count) (free_run p count (addr / 4096)) =
      free_run-Marked count p (addr / 4096) (addr / 4096 + count) refl h v in
    (m.valid, m.bits)

pub pmm_free_frame-Marked :
    {p : Pmm} (addr : ℕ)
    → IsValid p
    → Marked false p (addr / 4096) (addr / 4096 + 1) (pmm_free_frame p addr)
unfolding pmm_free_frame
pmm_free_frame-Marked {p} addr v = elim (Bool-cases (leb p.total_frames (addr / 4096))) [
  | inl out ↦ rw out (Marked-empty false p _ _ v (λ _. ground arith))
  | inr h ↦ rw h (release_frame-Marked p (addr / 4096) v (ground arith))
]

pub pmm_mark_frame_used-Marked :
    {p : Pmm} (addr : ℕ)
    → IsValid p
    → Marked true p (addr / 4096) (addr / 4096 + 1) (pmm_mark_frame_used p addr)
unfolding pmm_mark_frame_used
pmm_mark_frame_used-Marked {p} addr v = elim (Bool-cases (ltb (addr / 4096) p.total_frames)) [
  | inl h ↦ rw h (claim_frame-Marked p (addr / 4096) v (ltb→lt _ _ h))
  | inr out ↦ rw out (Marked-empty true p _ _ v (λ _. ground arith))
]

-- After `pmm_free_frame` the frame of the address is free, if it exists, and after
-- `pmm_mark_frame_used` it is allocated; what `pmm_is_frame_allocated` answers for an address in
-- any other frame stays.
pub pmm_is_frame_allocated_lem :
    {p : Pmm} (a b : ℕ)
    → IsValid p
    → (pmm_is_frame_allocated (pmm_free_frame p a) b ≡ (
        if a / 4096 == b / 4096 then leb p.total_frames (a / 4096) else pmm_is_frame_allocated p b))
      × (pmm_is_frame_allocated (pmm_mark_frame_used p a) b
          ≡ (if a / 4096 == b / 4096 then true else pmm_is_frame_allocated p b))
unfolding pmm_is_frame_allocated
pmm_is_frame_allocated_lem {p} a b v =
    let f : Marked false p (a / 4096) (a / 4096 + 1) (pmm_free_frame p a) =
      pmm_free_frame-Marked a v in
    let u : Marked true p (a / 4096) (a / 4096 + 1) (pmm_mark_frame_used p a) =
      pmm_mark_frame_used-Marked a v in
    (
      ground (arith, f.bits (b / 4096), f.same_total),
      ground (arith, u.bits (b / 4096), u.same_total),
    )

-- On a valid state no statistic wraps: the free frames are those whose bit is clear, and the free
-- memory is their size in bytes, in the memory's size.
pub pmm_get_stats_lem :
    {p : Pmm}
    → IsValid p
    → let s = pmm_get_stats p in
      (s.free_frames + count_used p.frame_bitmap p.total_frames ≡ s.total_frames)
      × (s.free_memory ≡ s.free_frames * 4096)
      × (s.free_memory ≡ pmm_get_free_memory p)
      × (s.free_memory ≤ s.total_memory)
unfolding pmm_get_stats pmm_get_free_memory
pmm_get_stats_lem {p} v =
    omega (arith, v.used, v.frames, v.memory, count_used-le p.frame_bitmap p.total_frames)
