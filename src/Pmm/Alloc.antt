-- ===== src/Pmm/Alloc.antt =====
-- Allocation of one frame and of a run of frames, and their return.
use kfs.Base.{
  ℕ, zero, suc, ◌+◌, ◌*◌, ◌/◌, ◌%◌, ◌≤◌, ◌<◌, ◌≡◌, ◌≢◌, ◌⊎◌, true, false, ◌&&◌, arith, ltb, leb,
  ◌==◌, if◌then◌else◌, Bool-cases, Option-cases, ==_iff, inl, inr, add32, List, some,
}
use kfs.Pmm.Bitmap.{bitmap_test, max_frames, bitmap_find_free, bitmap_find_free_region}
use kfs.Pmm.Bitmap.Laws.{
  IsBitmap, bitmap_set-IsBitmap, bitmap_test-bitmap_set, bitmap_clear-bitmap_set,
}
use kfs.Pmm.Bitmap.Count.{count_used, count_used-le, count_used-bitmap_set}
use kfs.Pmm.Bitmap.Search.{AllUsed, AllFree, FirstFree, bitmap_find_free_lem}
use kfs.Pmm.Bitmap.Region.{NoRunTo, NoRunFrom, FirstRun, bitmap_find_free_region_lem}
use kfs.Pmm.Invariant.{
  IsValid, is_used, use_frame-IsValid, is_used-use_frame, used_frames-use_frame,
}
use kfs.Pmm.{
  Pmm, use_frame, drop_frame, release_frame, set_run, pmm_alloc_frame, pmm_free_frame,
  pmm_alloc_frames,
}

-- What a successful `pmm_alloc_frame` has done.
pub record Allocated (p : Pmm) (addr : ℕ) (q : Pmm) : Type 0 where
  pub frame : ℕ
  pub address : addr ≡ frame * 4096
  pub in_range : frame < p.total_frames
  pub was_free : is_used p frame ≡ false
  pub lowest : AllUsed p.frame_bitmap 0 frame
  pub valid : IsValid q
  pub now_used : (j : ℕ) → is_used q j ≡ (if frame == j then true else is_used p j)
  pub counted : q.used_frames ≡ p.used_frames + 1

alloc_some :
    {p : Pmm} (f : ℕ)
    → IsValid p
    → FirstFree p.frame_bitmap 0 (p.total_frames / 8 * 8) (some f)
    → Allocated p (f * 4096 % 4294967296) (use_frame p f)
alloc_some {p} f v first = record {
  frame = f;
  address = omega (arith, v.frames, v.memory);
  in_range = omega arith;
  was_free = first.2;
  lowest = first.3;
  valid = use_frame-IsValid v f (omega arith) first.2;
  now_used = is_used-use_frame v f (omega arith);
  counted = used_frames-use_frame v f (omega arith) first.2;
}

-- On a valid state `pmm_alloc_frame` either takes the lowest free frame, marks it and nothing else
-- as used and counts it, or answers 0 and changes nothing, where every frame that a whole byte of
-- the bitmap stands for is used.
pub pmm_alloc_frame_lem :
    {p : Pmm}
    → IsValid p
    → ((pmm_alloc_frame p ≡ (0, p)) × AllUsed p.frame_bitmap 0 (p.total_frames / 8 * 8))
      ⊎ Allocated p (pmm_alloc_frame p).0 (pmm_alloc_frame p).1
unfolding pmm_alloc_frame
pmm_alloc_frame_lem {p} v = elim (Option-cases (bitmap_find_free p.frame_bitmap p.total_frames)) [
  | inl e ↦
      inl (rw (e, pmm_alloc_frame), rw e at (bitmap_find_free_lem p.frame_bitmap p.total_frames))
  | inr (f, e) ↦ inr (
      rw (e, pmm_alloc_frame)
        (alloc_some f v (rw e at (bitmap_find_free_lem p.frame_bitmap p.total_frames))))
]

free-use :
    {p : Pmm} (f addr : ℕ)
    → IsValid p
    → f < p.total_frames
    → is_used p f ≡ false
    → addr ≡ f * 4096
    → pmm_free_frame (use_frame p f) addr ≡ p
unfolding pmm_free_frame release_frame use_frame drop_frame
free-use {p} f addr v h free e =
    let frame : addr / 4096 ≡ f = omega arith in
    rw frame (
      ground (
        arith,
        bitmap_test-bitmap_set v.bitmap f f (omega (arith, v.frames, v.memory)),
        bitmap_clear-bitmap_set v.bitmap f (omega (arith, v.frames, v.memory)) free,
        count_used-le p.frame_bitmap p.total_frames,
      ))

-- Freeing the frame just allocated gives the state back.
pub pmm_free_frame-pmm_alloc_frame :
    {p : Pmm}
    → IsValid p
    → (pmm_alloc_frame p).0 ≢ 0
    → pmm_free_frame (pmm_alloc_frame p).1 (pmm_alloc_frame p).0 ≡ p
unfolding pmm_alloc_frame
pmm_free_frame-pmm_alloc_frame {p} v ok =
    elim (Option-cases (bitmap_find_free p.frame_bitmap p.total_frames)) [
      | inl e ↦ absurd (ok (rw (e, pmm_alloc_frame)))
      | inr (f, e) ↦
          let first : FirstFree p.frame_bitmap 0 (p.total_frames / 8 * 8) (some f) =
            rw e at (bitmap_find_free_lem p.frame_bitmap p.total_frames) in
          rw (e, pmm_alloc_frame)
            (free-use f _ v (omega arith) first.2 (omega (arith, v.frames, v.memory)))
    ]

-- The frames that no whole byte of the bitmap stands for are never allocated singly: with all
-- others in use the answer is 0, whatever is free among those.
pub pmm_alloc_frame_tail :
    {p : Pmm} → AllUsed p.frame_bitmap 0 (p.total_frames / 8 * 8) → pmm_alloc_frame p ≡ (0, p)
unfolding pmm_alloc_frame
pmm_alloc_frame_tail {p} used =
    elim (Option-cases (bitmap_find_free p.frame_bitmap p.total_frames)) [
      | inl e ↦ rw (e, pmm_alloc_frame)
      | inr (f, e) ↦
          let first : FirstFree p.frame_bitmap 0 (p.total_frames / 8 * 8) (some f) =
            rw e at (bitmap_find_free_lem p.frame_bitmap p.total_frames) in
          cc (used f (omega arith) (omega arith), first.2)
    ]

-- The frames of a run are marked, one after the other.
module _ (total : ℕ) (small : total ≤ max_frames) where
  set_run-IsBitmap : (count s : ℕ) {m : List ℕ} → IsBitmap m → IsBitmap (set_run m count s)
  unfolding set_run
  set_run-IsBitmap zero s v = v
  set_run-IsBitmap (suc count) s v = set_run-IsBitmap count (add32 s 1) (bitmap_set-IsBitmap v s)

  bitmap_test-set_run :
      (count s : ℕ) {m : List ℕ}
      → IsBitmap m
      → s + count ≤ total
      → (j : ℕ)
      → bitmap_test (set_run m count s) j
        ≡ (if leb s j && ltb j (s + count) then true else bitmap_test m j)
  unfolding set_run
  bitmap_test-set_run zero s v h j = ground arith
  bitmap_test-set_run (suc count) s {m} v h j =
      let e : add32 s 1 ≡ s + 1 = omega arith in
      rw (e, bitmap_test-set_run count (s + 1) (bitmap_set-IsBitmap v s) (omega arith) j)
        (ground (arith, bitmap_test-bitmap_set v s j (omega arith)))

  count_used-set_run :
      (count s : ℕ) {m : List ℕ}
      → IsBitmap m
      → s + count ≤ total
      → AllFree m s (s + count)
      → count_used (set_run m count s) total ≡ count_used m total + count
  unfolding set_run
  count_used-set_run zero s v h free = omega arith
  count_used-set_run (suc count) s {m} v h free =
      let e : add32 s 1 ≡ s + 1 = omega arith in
      rw e (
        ground (
          arith,
          count_used-set_run count (s + 1) (bitmap_set-IsBitmap v s) (omega arith) (λ g p q.
              ground (
                arith,
                bitmap_test-bitmap_set v s g (omega arith),
                free g (omega arith) (omega arith),
              )),
          count_used-bitmap_set v s (omega arith) total,
          free s (omega arith) (omega arith),
        ))

-- What a successful `pmm_alloc_frames` has done.
pub record AllocatedRun (p : Pmm) (count addr : ℕ) (q : Pmm) : Type 0 where
  pub start : ℕ
  pub address : addr ≡ start * 4096
  pub in_range : start + count ≤ p.total_frames
  pub were_free : AllFree p.frame_bitmap start (start + count)
  pub lowest : NoRunFrom p.frame_bitmap count start
  pub valid : IsValid q
  pub now_used :
      (j : ℕ) → is_used q j ≡ (if leb start j && ltb j (start + count) then true else is_used p j)
  pub counted : q.used_frames ≡ p.used_frames + count

alloc_run :
    {p : Pmm} (count s : ℕ)
    → IsValid p
    → FirstRun p.frame_bitmap count p.total_frames (some s)
    → AllocatedRun p count (s * 4096 % 4294967296) (record p {
      frame_bitmap = set_run p.frame_bitmap count s;
      used_frames = add32 p.used_frames count;
    })
alloc_run {p} count s v run =
    let small : p.total_frames ≤ max_frames = omega (arith, v.frames, v.memory) in
    let counted : p.used_frames + count ≤ p.total_frames = omega (
      arith,
      count_used-set_run p.total_frames small count s v.bitmap run.0 run.1,
      count_used-le (set_run p.frame_bitmap count s) p.total_frames,
      v.used,
    ) in
    record {
      start = s;
      address = omega arith;
      in_range = run.0;
      were_free = run.1;
      lowest = run.2;
      valid = record {
        bitmap = set_run-IsBitmap p.total_frames small count s v.bitmap;
        memory = v.memory;
        frames = v.frames;
        used =
            omega
              (arith, count_used-set_run p.total_frames small count s v.bitmap run.0 run.1, v.used);
      };
      now_used = bitmap_test-set_run p.total_frames small count s v.bitmap run.0;
      counted = omega arith;
    }

-- On a valid state `pmm_alloc_frames` either takes the lowest run of `count` free frames, marks
-- exactly those and counts them, or answers 0 and changes nothing, where `count` is 0 or the state
-- holds no such run.
pub pmm_alloc_frames_lem :
    {p : Pmm} (count : ℕ)
    → IsValid p
    → ((pmm_alloc_frames p count ≡ (0, p))
        × ((count ≡ 0) ⊎ NoRunTo p.frame_bitmap count p.total_frames))
      ⊎ AllocatedRun p count (pmm_alloc_frames p count).0 (pmm_alloc_frames p count).1
unfolding pmm_alloc_frames
pmm_alloc_frames_lem {p} count v = elim (Bool-cases (count == 0)) [
  | inl e ↦ inl (rw (e, pmm_alloc_frames), inl ((==_iff count 0).0 e))
  | inr e ↦
      rw e (elim (Option-cases (bitmap_find_free_region p.frame_bitmap p.total_frames count)) [
        | inl none_found ↦
            inl (rw (none_found, pmm_alloc_frames), inr (rw none_found at (found (ground arith))))
        | inr (s, some_found) ↦ inr (
            rw (some_found, pmm_alloc_frames)
              (alloc_run count s v (rw some_found at (found (ground arith)))))
      ])
]
  where
    found :
        count ≢ 0
        → FirstRun p.frame_bitmap count p.total_frames
            (bitmap_find_free_region p.frame_bitmap p.total_frames count)
    found ne = bitmap_find_free_region_lem p.frame_bitmap count p.total_frames ne
