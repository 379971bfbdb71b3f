-- ===== src/Pmm/Bitmap/Region.antt =====
-- `bitmap_find_free_region` of kernel/src/pmm.c: the lowest run of free frames.
use native.Mathlib.Decide.{ℕ_discrete, dec_lt}
use kfs.Base.{
  ℕ, zero, suc, ◌+◌, ◌-◌, ◌≤◌, ◌<◌, ◌≡◌, refl, ◌≢◌, true, false, Option, none, some, List, arith,
  inl, inr, leb, leb→le, ◌==◌, Bool-cases, if◌then◌else◌,
}
use kfs.Pmm.Bitmap.{bitmap_test, find_region, bitmap_find_free_region}
use kfs.Pmm.Bitmap.Search.{AllFree}

-- No run of `count` free frames starts below `bound`, or ends at `limit` or below.
abbrev pub NoRunFrom : List ℕ → ℕ → ℕ → Type 0
NoRunFrom m count bound = (s : ℕ) → s < bound → ¬ AllFree m s (s + count)

abbrev pub NoRunTo : List ℕ → ℕ → ℕ → Type 0
NoRunTo m count limit = (s : ℕ) → s + count ≤ limit → ¬ AllFree m s (s + count)

-- What the search for a run of `count` free frames answers.
abbrev pub FirstRun : List ℕ → ℕ → ℕ → Option ℕ → Type 0
FirstRun m count total none = NoRunTo m count total
FirstRun m count total (some s) =
    (s + count ≤ total) × AllFree m s (s + count) × NoRunFrom m count s

-- The state of the loop at `frame`: the last `consecutive` frames are free, a used one stands
-- before them, and no run has been met.
record Scan (m : List ℕ) (count frame consecutive start : ℕ) : Type 0 where
  short : consecutive < count
  within : consecutive ≤ frame
  start_eq : consecutive ≢ 0 → start ≡ frame - consecutive
  free : AllFree m (frame - consecutive) frame
  edge : consecutive < frame → bitmap_test m (frame - consecutive - 1) ≡ true
  none_yet : NoRunTo m count frame

module _ (m : List ℕ) (count : ℕ) where
  NoRunTo-suc :
      (frame used : ℕ)
      → NoRunTo m count frame
      → used ≤ frame
      → frame + 1 ≤ used + count
      → bitmap_test m used ≡ true
      → NoRunTo m count (frame + 1)
  NoRunTo-suc frame used h p q e s le free = elim (dec_lt frame (s + count)) [
    | yes last ↦ cc (free used (omega arith) (omega arith))
    | no earlier ↦ h s (omega arith) free
  ]

  AllFree-suc :
      (lo frame : ℕ) → AllFree m lo frame → bitmap_test m frame ≡ false → AllFree m lo (frame + 1)
  AllFree-suc lo frame h e g p q = elim (ℕ_discrete frame g) [
    | yes eq ↦ rw eq at e
    | no ne ↦ h g p (omega arith)
  ]

  Scan-blocked :
      (frame consecutive start : ℕ)
      → Scan m count frame consecutive start
      → bitmap_test m frame ≡ true
      → Scan m count (frame + 1) 0 start
  Scan-blocked frame consecutive start v used = record {
    short = omega arith;
    within = omega arith;
    start_eq = λ ne. absurd (ne refl);
    free = λ g p q. absurd (omega arith);
    edge = λ _. let e : frame + 1 - 0 - 1 ≡ frame = omega arith in rw e used;
    none_yet = NoRunTo-suc frame frame v.none_yet (omega arith) (omega arith) used;
  }

  -- The run's start, once the frame at hand is added to it.
  start_lem :
      (frame consecutive start : ℕ)
      → Scan m count frame consecutive start
      → (if consecutive == 0 then frame else start) ≡ frame - consecutive
  start_lem frame consecutive start v = ground (arith, v.start_eq)

  Scan-extend :
      (frame consecutive start start' : ℕ)
      → Scan m count frame consecutive start
      → bitmap_test m frame ≡ false
      → start' ≡ frame - consecutive
      → consecutive + 1 < count
      → Scan m count (frame + 1) (consecutive + 1) start'
  Scan-extend frame consecutive start start' v free e h = record {
    short = h;
    within = omega arith;
    start_eq = λ _. omega arith;
    free = λ g p q. AllFree-suc (frame - consecutive) frame v.free free g (omega arith) q;
    edge = λ lt.
        let e : frame + 1 - (consecutive + 1) - 1 ≡ frame - consecutive - 1 = omega arith in
        rw e (v.edge (omega arith));
    none_yet = λ s le run. elim (dec_lt frame (s + count)) [
      | yes last ↦
          cc (run (frame - consecutive - 1) (omega arith) (omega arith), v.edge (omega arith))
      | no earlier ↦ v.none_yet s (omega arith) run
    ];
  }

  Scan-found :
      (frame consecutive start start' total : ℕ)
      → Scan m count frame consecutive start
      → bitmap_test m frame ≡ false
      → start' ≡ frame - consecutive
      → count ≤ consecutive + 1
      → frame < total
      → FirstRun m count total (some start')
  Scan-found frame consecutive start start' total v free e h lt = (
    omega arith,
    λ g p q. AllFree-suc (frame - consecutive) frame v.free free g (omega arith) (omega arith),
    λ s below run. v.none_yet s (omega arith) run,
  )

  find_region_lem :
      (total rounds frame consecutive start : ℕ)
      → frame + rounds ≡ total
      → Scan m count frame consecutive start
      → FirstRun m count total (find_region m total rounds count frame consecutive start)
  unfolding find_region
  find_region_lem total zero frame consecutive start e v = λ s le. v.none_yet s (omega arith)
  find_region_lem total (suc rounds) frame consecutive start e v =
      elim (Bool-cases (bitmap_test m frame)) [
        | inl used ↦ rw used (
            find_region_lem total rounds (frame + 1) 0 start (omega arith)
              (Scan-blocked frame consecutive start v used))
        | inr free ↦ rw free (elim (Bool-cases (leb count (consecutive + 1))) [
          | inl enough ↦ rw enough (
              Scan-found frame consecutive start _ total v free
                (start_lem frame consecutive start v) (leb→le _ _ enough) (omega arith))
          | inr short ↦ rw short (
              find_region_lem total rounds (frame + 1) (consecutive + 1) _ (omega arith) (
                Scan-extend frame consecutive start _ v free (start_lem frame consecutive start v)
                  (ground arith)))
        ])
      ]

  -- The search answers the lowest run of `count` free frames, and fails only if there is none.
  pub bitmap_find_free_region_lem :
      (total : ℕ) → count ≢ 0 → FirstRun m count total (bitmap_find_free_region m total count)
  unfolding bitmap_find_free_region
  bitmap_find_free_region_lem total h = find_region_lem total total 0 0 0 (omega arith) (record {
    short = omega arith;
    within = omega arith;
    start_eq = λ ne. absurd (ne refl);
    free = λ g p q. absurd (omega arith);
    edge = λ lt. absurd (omega arith);
    none_yet = λ s le run. absurd (omega arith);
  })
