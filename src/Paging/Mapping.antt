-- ===== src/Paging/Mapping.antt =====
-- Mapping and unmapping one page changes that page's entry and no other, and keeps the directory
-- well formed.
use native.Mathlib.Decide.{ℕ_discrete}
use kfs.Base.{
  ℕ, ◌<◌, ◌≡◌, ◌≢◌, refl, ap, ◌∙◌, ◌⊎◌, inl, inr, true, false, ◌&&◌, arith, ◌==◌, ==_iff,
  if◌then◌else◌, none, some, Bool-cases,
}
use kfs.Pmm.{pmm_alloc_frame}
use kfs.Paging.{
  Paging, is_present, entry_at, page_frame, write, mapping, page_dir_index, page_table_index,
  paging_map_page_in_directory, paging_unmap_page_in_directory,
}
use kfs.Paging.Space.{IsSpace, entry, page_entry, view, write_apart, write_same, IsSpace-same}
use kfs.Paging.Table.{Ready}
use kfs.Paging.Create.{paging_get_or_create_table_lem}

-- What a change of one page's entry to `word` has done.
pub record Changed (p : Paging) (directory virt_addr word : ℕ) (q : Paging) : Type 0 where
  pub space : IsSpace q directory
  pub pages :
      (i j : ℕ)
      → i < 1024
      → j < 1024
      → view q directory i j ≡ (
          if i == page_dir_index virt_addr && j == page_table_index virt_addr
          then word
          else view p directory i j)
  pub same_current : q.current_directory ≡ p.current_directory

-- A word written into a table of the directory.
module _ {p : Paging} {directory : ℕ} (v : IsSpace p directory) (k index word : ℕ) (hk : k < 1024)
    (hi : index < 1024) (on : is_present (entry p directory k) ≡ true) where
  stored : Paging
  stored = record p {
    memory = write p.memory (entry_at (page_frame (entry p directory k)) index) word;
  }

  entry-stored : (i : ℕ) → i < 1024 → entry stored directory i ≡ entry p directory i
  unfolding stored
  entry-stored i lt =
      write_apart p.memory (page_frame (entry p directory k)) index word directory i (omega arith)
        v.aligned hi lt (λ e. v.tables_apart k hk on (omega arith))

  stored-IsSpace : IsSpace stored directory
  unfolding stored
  stored-IsSpace = IsSpace-same v stored refl entry-stored

  stored_elsewhere :
      (i j : ℕ)
      → i < 1024
      → j < 1024
      → k ≢ i
      → is_present (entry p directory i) ≡ true
      → page_entry stored (entry p directory i) j ≡ page_entry p (entry p directory i) j
  unfolding stored
  stored_elsewhere i j li lj ne there =
      write_apart p.memory (page_frame (entry p directory k)) index word
        (page_frame (entry p directory i)) j (omega arith) (omega arith) hi lj
        (λ e. v.tables_distinct k i hk li ne on there (omega arith))

  stored_here :
      (j : ℕ)
      → page_entry stored (entry p directory k) j
        ≡ (if j == index then word else page_entry p (entry p directory k) j)
  unfolding stored
  stored_here j = write_same p.memory (page_frame (entry p directory k)) index word j

  view-stored :
      (i j : ℕ)
      → i < 1024
      → j < 1024
      → view stored directory i j ≡ (if i == k && j == index then word else view p directory i j)
  view-stored i j li lj = elim (ℕ_discrete k i) [
    | yes e ↦ rw (entry-stored i li, ← e, on) (ground (arith, stored_here j))
    | no ne ↦ elim (Bool-cases (is_present (entry p directory i))) [
      | inl there ↦
          rw (entry-stored i li, there, stored_elsewhere i j li lj ne there) (ground arith)
      | inr absent ↦ rw (entry-stored i li, absent) (ground arith)
    ]
  ]

Ready-Changed :
    {p q : Paging} {directory table : ℕ} (virt_addr word : ℕ)
    (r : Ready p directory (page_dir_index virt_addr) table q)
    → Changed p directory virt_addr word (
        stored r.space
          (page_dir_index virt_addr)
          (page_table_index virt_addr)
          word
          (omega arith)
          (omega arith)
          r.there)
unfolding stored
Ready-Changed {p} {q} {directory} virt_addr word r =
    let k = page_dir_index virt_addr in
    let index = page_table_index virt_addr in
    record {
      space = stored-IsSpace r.space k index word (omega arith) (omega arith) r.there;
      pages = λ i j li lj.
          view-stored r.space k index word (omega arith) (omega arith) r.there i j li lj
          ∙ ap (λ n. if i == k && j == index then word else n) (r.same_view i j li lj);
      same_current = r.same_current;
    }

-- In a well-formed directory, `paging_map_page_in_directory` fails only for want of a frame for a
-- new table. Else it makes the entry of the address the mapping asked for, leaves every other
-- entry as it was, and keeps the directory well formed.
pub paging_map_page_in_directory_lem :
    {p : Paging} {directory : ℕ} (virt_addr phys_addr flags : ℕ)
    → IsSpace p directory
    → ((paging_map_page_in_directory p directory virt_addr phys_addr flags ≡ none)
        × (is_present (entry p directory (page_dir_index virt_addr)) ≡ false)
        × ((pmm_alloc_frame p.pmm).0 ≡ 0))
      ⊎ ((q : Paging) × (paging_map_page_in_directory p directory virt_addr phys_addr flags
            ≡ some q)
          × Changed p directory virt_addr (mapping phys_addr flags) q)
unfolding paging_map_page_in_directory stored
paging_map_page_in_directory_lem {p} {directory} virt_addr phys_addr flags v =
    let given : directory == 0 ≡ false = ground (arith, v.exists) in
    elim (paging_get_or_create_table_lem virt_addr flags v) [
      | inl (failed, absent, none_free) ↦ inl (rw (given, failed) refl, absent, none_free)
      | inr (table, q, got, r) ↦ inr (
        stored r.space (page_dir_index virt_addr) (page_table_index virt_addr)
            (mapping phys_addr flags) (omega arith) (omega arith) r.there,
        rw (given, got, r.frame) refl,
        Ready-Changed virt_addr (mapping phys_addr flags) r,
      )
    ]

-- In a well-formed directory, `paging_unmap_page_in_directory` clears the entry of the address,
-- leaves every other entry as it was, and keeps the directory well formed.
pub paging_unmap_page_in_directory_lem :
    {p : Paging} {directory : ℕ} (virt_addr : ℕ)
    → IsSpace p directory
    → Changed p directory virt_addr 0 (paging_unmap_page_in_directory p directory virt_addr)
unfolding paging_unmap_page_in_directory stored
paging_unmap_page_in_directory_lem {p} {directory} virt_addr v =
    let k = page_dir_index virt_addr in
    let index = page_table_index virt_addr in
    let given : directory == 0 ≡ false = ground (arith, v.exists) in
    elim (Bool-cases (is_present (entry p directory k))) [
      | inl on ↦
          rw (given, on)
            (record {
              space = stored-IsSpace v k index 0 (omega arith) (omega arith) on;
              pages = view-stored v k index 0 (omega arith) (omega arith) on;
              same_current = refl;
            })
      | inr absent ↦
          rw (given, absent)
            (record {
              space = v;
              pages = λ i j li lj. elim (Bool-cases (i == k)) [
                | inl e ↦ rw ((==_iff i k).0 e, absent) (ground arith)
                | inr ne ↦ rw ne refl
              ];
              same_current = refl;
            })
    ]
