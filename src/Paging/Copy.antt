-- ===== src/Paging/Copy.antt =====
-- Copying a directory: the copy shares the tables, and nothing else in memory changes.
use kfs.Base.{
  ℕ, zero, suc, ◌+◌, ◌/◌, ◌%◌, ◌≤◌, ◌<◌, ◌≡◌, ◌≢◌, refl, ◌∙◌, false, ◌&&◌, ◌||◌, arith, leb, ltb,
  ◌==◌, if◌then◌else◌,
}
use kfs.Paging.{Paging, entry_at, write, clear_page, copy_entries, paging_copy_directory}
use kfs.Paging.Space.{entry}

-- The loop copies the entries from `index` on and writes nothing else, as long as the two
-- directories lie in different pages.
copy_entries_at :
    (rounds index : ℕ) (memory : ℕ → ℕ) (destination source : ℕ)
    → destination % 4096 ≡ 0
    → source % 4096 ≡ 0
    → destination ≢ source
    → index + rounds ≤ 1024
    → (i : ℕ) → i < 1024
    → copy_entries memory destination source rounds index (entry_at destination i) ≡ (
        if leb index i && ltb i (index + rounds)
        then memory (entry_at source i)
        else memory (entry_at destination i))
unfolding copy_entries
copy_entries_at zero index memory destination source hd hs ne le i li = ground arith
copy_entries_at (suc rounds) index memory destination source hd hs ne le i li =
    copy_entries_at rounds (index + 1)
      (write memory (entry_at destination index) (memory (entry_at source index))) destination
      source hd hs ne (omega arith) i li
    ∙ ground arith

copy_entries_elsewhere :
    (rounds index : ℕ) (memory : ℕ → ℕ) (destination source : ℕ)
    → destination % 4096 ≡ 0
    → index + rounds ≤ 1024
    → (a : ℕ) → destination / 4096 ≢ a / 4096
    → copy_entries memory destination source rounds index a ≡ memory a
unfolding copy_entries
copy_entries_elsewhere zero index memory destination source hd le a ne = refl
copy_entries_elsewhere (suc rounds) index memory destination source hd le a ne =
    copy_entries_elsewhere rounds (index + 1)
      (write memory (entry_at destination index) (memory (entry_at source index))) destination
      source hd (omega arith) a ne
    ∙ ground arith

-- For two directories in different pages, `paging_copy_directory` gives the destination the
-- source's entries, and changes no word outside the destination's page.
pub paging_copy_directory_lem :
    (p : Paging) (destination source : ℕ)
    → destination % 4096 ≡ 0
    → source % 4096 ≡ 0
    → destination ≢ source
    → destination ≢ 0
    → source ≢ 0
    → let q = paging_copy_directory p destination source in
      ((i : ℕ) → i < 1024 → entry q destination i ≡ entry p source i)
      × ((a : ℕ) → destination / 4096 ≢ a / 4096 → q.memory a ≡ p.memory a)
unfolding paging_copy_directory
paging_copy_directory_lem p destination source hd hs ne d0 s0 =
    let given : (destination == 0 || source == 0) ≡ false = ground arith in
    rw given (
      λ i li.
          copy_entries_at 1024 0 (clear_page p.memory destination) destination source hd hs ne
            (omega arith) i li
          ∙ ground arith,
      λ a apart.
          copy_entries_elsewhere 1024 0 (clear_page p.memory destination) destination source hd
            (omega arith) a apart
          ∙ ground arith,
    )
