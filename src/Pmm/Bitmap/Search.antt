-- ===== src/Pmm/Bitmap/Search.antt =====
-- The two searches of kernel/src/pmm.c: `bitmap_find_free` and `bitmap_find_free_region`.
use kfs.Base.{
  ℕ, zero, suc, ◌+◌, ◌*◌, ◌/◌, ◌%◌, ◌≤◌, ◌<◌, ◌≡◌, refl, true, false, Option, none, some, List,
  arith, inl, inr, ◌==◌, get_or, Bool-cases, lt→ltb, ==_iff,
}
use native.Mathlib.Decide.{ℕ_discrete, dec_lt}
use kfs.Base.Bits.{test_bit-full}
use kfs.Pmm.Bitmap.{bitmap_test, find_bit, find_byte, bitmap_find_free}

-- Every frame from `lo` up to `hi` is used, or free.
abbrev pub AllUsed : List ℕ → ℕ → ℕ → Type 0
AllUsed m lo hi = (g : ℕ) → lo ≤ g → g < hi → bitmap_test m g ≡ true

abbrev pub AllFree : List ℕ → ℕ → ℕ → Type 0
AllFree m lo hi = (g : ℕ) → lo ≤ g → g < hi → bitmap_test m g ≡ false

-- What a search for the lowest free frame in a range answers.
abbrev pub FirstFree : List ℕ → ℕ → ℕ → Option ℕ → Type 0
FirstFree m lo hi none = AllUsed m lo hi
FirstFree m lo hi (some f) = (lo ≤ f) × (f < hi) × (bitmap_test m f ≡ false) × AllUsed m lo f

module _ (m : List ℕ) where
  AllUsed-cons : (lo hi : ℕ) → bitmap_test m lo ≡ true → AllUsed m (lo + 1) hi → AllUsed m lo hi
  AllUsed-cons lo hi used rest g p q = elim (ℕ_discrete lo g) [
    | yes e ↦ rw e at used
    | no ne ↦ rest g (omega arith) q
  ]

  AllUsed-append : (lo mid hi : ℕ) → AllUsed m lo mid → AllUsed m mid hi → AllUsed m lo hi
  AllUsed-append lo mid hi a b g p q = elim (dec_lt g mid) [
    | yes h ↦ a g p h
    | no h ↦ b g (omega arith) q
  ]

  FirstFree-cons :
      (lo hi : ℕ) (r : Option ℕ)
      → bitmap_test m lo ≡ true
      → FirstFree m (lo + 1) hi r
      → FirstFree m lo hi r
  FirstFree-cons lo hi none used f = AllUsed-cons lo hi used f
  FirstFree-cons lo hi (some g) used f = (omega arith, f.1, f.2, AllUsed-cons lo g used f.3)

  FirstFree-append :
      (lo mid hi : ℕ) (r : Option ℕ)
      → lo ≤ mid
      → AllUsed m lo mid
      → FirstFree m mid hi r
      → FirstFree m lo hi r
  FirstFree-append lo mid hi none h used f = AllUsed-append lo mid hi used f
  FirstFree-append lo mid hi (some g) h used f =
      (omega arith, f.1, f.2, AllUsed-append lo mid g used f.3)

  full_byte : (i lo hi : ℕ) → lo ≡ i * 8 → hi ≡ lo + 8 → get_or m i 0 ≡ 255 → AllUsed m lo hi
  unfolding bitmap_test
  full_byte i lo hi el eh e g p q =
      let byte : g / 8 ≡ i = omega arith in rw (byte, e) (test_bit-full (g % 8) (omega arith))

module _ (m : List ℕ) (total_frames : ℕ) where
  find_bit_lem :
      (rounds i j lo hi : ℕ)
      → lo ≡ i * 8 + j
      → hi ≡ lo + rounds
      → hi ≤ total_frames
      → FirstFree m lo hi (find_bit m total_frames rounds i j)
  unfolding find_bit
  find_bit_lem zero i j lo hi el eh h = λ g p q. absurd (omega arith)
  find_bit_lem (suc rounds) i j lo hi el eh h =
      rw (← el, lt→ltb lo total_frames (omega arith))
        (elim (Bool-cases (bitmap_test m lo)) [
          | inl used ↦ rw used (
              FirstFree-cons m lo hi (find_bit m total_frames rounds i (j + 1)) used
                (find_bit_lem rounds i (j + 1) (lo + 1) hi (omega arith) (omega arith) h))
          | inr free ↦ rw free (omega arith, omega arith, free, λ g p q. absurd (omega arith))
        ])

  find_byte_step :
      (lo mid hi : ℕ) (a b : Option ℕ)
      → lo ≤ mid
      → mid ≤ hi
      → FirstFree m lo mid a
      → FirstFree m mid hi b
      → FirstFree m lo hi (elim a [ some frame ↦ some frame | none ↦ b ])
  find_byte_step lo mid hi none b h k fa fb = FirstFree-append m lo mid hi b h fa fb
  find_byte_step lo mid hi (some f) b h k fa fb = (fa.0, omega arith, fa.2, fa.3)

  find_byte_lem :
      (rounds i lo hi : ℕ)
      → lo ≡ i * 8
      → hi ≡ lo + rounds * 8
      → hi ≤ total_frames
      → FirstFree m lo hi (find_byte m total_frames rounds i)
  unfolding find_byte
  find_byte_lem zero i lo hi el eh h = λ g p q. absurd (omega arith)
  find_byte_lem (suc rounds) i lo hi el eh h =
      let rest : FirstFree m (lo + 8) hi (find_byte m total_frames rounds (i + 1)) =
        find_byte_lem rounds (i + 1) (lo + 8) hi (omega arith) (omega arith) h in
      elim (Bool-cases (get_or m i 0 == 255)) [
        | inl full ↦ rw full (
            FirstFree-append m lo (lo + 8) hi (find_byte m total_frames rounds (i + 1))
              (omega arith) (full_byte m i lo (lo + 8) el refl ((==_iff _ _).0 full)) rest)
        | inr other ↦ rw other (
            find_byte_step lo (lo + 8) hi (find_bit m total_frames 8 i 0)
              (find_byte m total_frames rounds (i + 1)) (omega arith) (omega arith)
              (find_bit_lem 8 i 0 lo (lo + 8) (omega arith) refl (omega arith)) rest)
      ]

  -- The search answers the lowest free frame, but looks only at whole bytes of the bitmap.
  pub bitmap_find_free_lem : FirstFree m 0 (total_frames / 8 * 8) (bitmap_find_free m total_frames)
  unfolding bitmap_find_free
  bitmap_find_free_lem =
      find_byte_lem (total_frames / 8) 0 0 (total_frames / 8 * 8) (omega arith) (omega arith)
        (omega arith)
