-- ===== src/Paging/Space.antt =====
-- When a page directory is well formed: it and its tables lie in pages of their own, whose frames
-- the physical memory manager counts as used.
use kfs.Base.{ℕ, ◌/◌, ◌%◌, ◌<◌, ◌≡◌, ◌≢◌, sym, ◌∙◌, true, arith, ◌==◌, if◌then◌else◌}
use native.Mathlib.Decide.{ℕ_discrete}
use kfs.Pmm.Invariant
use kfs.Pmm.Invariant.{is_used}
use kfs.Paging.{Paging, is_present, entry_at, page_frame, write, clear_page}

-- The directory's entry for an index.
abbrev pub entry : Paging → ℕ → ℕ → ℕ
entry p directory index = p.memory (entry_at directory index)

-- The entry for a page, in the table of a directory entry.
abbrev pub page_entry : Paging → ℕ → ℕ → ℕ
page_entry p table_entry index = p.memory (entry_at (page_frame table_entry) index)

pub record IsSpace (p : Paging) (directory : ℕ) : Type 0 where
  pub frames : Invariant.IsValid p.pmm
  pub aligned : directory % 4096 ≡ 0
  pub exists : directory ≢ 0
  pub used : is_used p.pmm (directory / 4096) ≡ true
  pub tables_used :
      (i : ℕ)
      → i < 1024
      → is_present (entry p directory i) ≡ true
      → is_used p.pmm (entry p directory i / 4096) ≡ true
  pub tables_apart :
      (i : ℕ)
      → i < 1024
      → is_present (entry p directory i) ≡ true
      → entry p directory i / 4096 ≢ directory / 4096
  pub tables_distinct :
      (i j : ℕ)
      → i < 1024
      → j < 1024
      → i ≢ j
      → is_present (entry p directory i) ≡ true
      → is_present (entry p directory j) ≡ true
      → entry p directory i / 4096 ≢ entry p directory j / 4096

-- A write inside one page does not show in another.
pub write_apart :
    (memory : ℕ → ℕ) (base index word other j : ℕ)
    → base % 4096 ≡ 0
    → other % 4096 ≡ 0
    → index < 1024
    → j < 1024
    → base / 4096 ≢ other / 4096
    → write memory (entry_at base index) word (entry_at other j) ≡ memory (entry_at other j)
write_apart memory base index word other j hb ho hi hj ne = ground arith

pub write_same :
    (memory : ℕ → ℕ) (base index word j : ℕ)
    → write memory (entry_at base index) word (entry_at base j)
      ≡ (if j == index then word else memory (entry_at base j))
write_same memory base index word j = ground arith

pub clear_apart :
    (memory : ℕ → ℕ) (base other j : ℕ)
    → base % 4096 ≡ 0
    → other % 4096 ≡ 0
    → j < 1024
    → base / 4096 ≢ other / 4096
    → clear_page memory base (entry_at other j) ≡ memory (entry_at other j)
clear_apart memory base other j hb ho hj ne = ground arith

pub clear_inside :
    (memory : ℕ → ℕ) (base j : ℕ) → j < 1024 → clear_page memory base (entry_at base j) ≡ 0
clear_inside memory base j hj = ground arith

-- The page entry for a pair of indices, 0 where the directory has no table: all that the processor
-- sees of the directory.
abbrev pub view : Paging → ℕ → ℕ → ℕ → ℕ
view p directory i j =
    if is_present (entry p directory i) then page_entry p (entry p directory i) j else 0

module _ {p : Paging} {directory : ℕ} (v : IsSpace p directory) (q : Paging) where
  -- A change of memory that leaves the directory alone.
  pub IsSpace-same :
      q.pmm ≡ p.pmm
      → ((i : ℕ) → i < 1024 → entry q directory i ≡ entry p directory i)
      → IsSpace q directory
  IsSpace-same frames same = record {
    frames = rw frames v.frames;
    aligned = v.aligned;
    exists = v.exists;
    used = rw frames v.used;
    tables_used = λ i hi. rw (same i hi, frames) (v.tables_used i hi);
    tables_apart = λ i hi. rw (same i hi) (v.tables_apart i hi);
    tables_distinct = λ i j hi hj. rw (same i hi, same j hj) (v.tables_distinct i j hi hj);
  }

  -- A change of one entry, to one for the frame `t`, which no other entry has.
  pub IsSpace-update :
      (k t : ℕ)
      → Invariant.IsValid q.pmm
      → ((f : ℕ) → is_used p.pmm f ≡ true → is_used q.pmm f ≡ true)
      → ((i : ℕ) → i < 1024 → k ≢ i → entry q directory i ≡ entry p directory i)
      → entry q directory k / 4096 ≡ t
      → is_used q.pmm t ≡ true
      → t ≢ directory / 4096
      → ((i : ℕ)
          → i < 1024
          → k ≢ i
          → is_present (entry p directory i) ≡ true
          → entry p directory i / 4096 ≢ t)
      → IsSpace q directory
  IsSpace-update k t frames more others here used apart fresh = record {
    frames = frames;
    aligned = v.aligned;
    exists = v.exists;
    used = more _ v.used;
    tables_used = λ i hi on. elim (ℕ_discrete k i) [
      | yes e ↦ rw (← e, here) used
      | no ne ↦ rw (others i hi ne) (more _ (v.tables_used i hi (rw (others i hi ne) at on)))
    ];
    tables_apart = λ i hi on. elim (ℕ_discrete k i) [
      | yes e ↦ rw (← e, here) apart
      | no ne ↦ rw (others i hi ne) (v.tables_apart i hi (rw (others i hi ne) at on))
    ];
    tables_distinct = λ i j hi hj ij oni onj. elim (ℕ_discrete k i) [
      | yes e ↦ elim (ℕ_discrete k j) [
        | yes e' ↦ absurd (ij (sym e ∙ e'))
        | no ne ↦
            rw (← e, here, others j hj ne)
              (λ same. fresh j hj ne (rw (others j hj ne) at onj) (sym same))
      ]
      | no ne ↦ elim (ℕ_discrete k j) [
        | yes e' ↦ rw (← e', here, others i hi ne) (fresh i hi ne (rw (others i hi ne) at oni))
        | no ne' ↦
            rw (others i hi ne, others j hj ne')
              (v.tables_distinct i j hi hj ij (rw (others i hi ne) at oni)
                (rw (others j hj ne') at onj))
      ]
    ];
  }
