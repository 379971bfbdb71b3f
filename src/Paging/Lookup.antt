-- ===== src/Paging/Lookup.antt =====
-- What the look-ups answer, in terms of the pages that the processor sees, and how mapping and
-- unmapping change it.
use kfs.Base.{
  ℕ, ◌+◌, ◌/◌, ◌%◌, ◌<◌, ◌≡◌, ◌≢◌, refl, sym, ap, ◌∙◌, inl, inr, true, ◌&&◌, arith, ◌==◌,
  if◌then◌else◌, some, Bool-cases,
}
use kfs.Paging.{
  Paging, is_present, page_frame, page_offset, mapping, page_dir_index, page_table_index,
  paging_map_page_in_directory, paging_unmap_page_in_directory, paging_get_physical_in_directory,
  paging_is_mapped,
}
use kfs.Paging.Space.{IsSpace, entry, view}
use kfs.Paging.Mapping.{
  Changed, paging_map_page_in_directory_lem, paging_unmap_page_in_directory_lem,
}

-- The entry of an address.
abbrev pub page_of : Paging → ℕ → ℕ → ℕ
page_of p directory virt_addr =
    view p directory (page_dir_index virt_addr) (page_table_index virt_addr)

pub paging_get_physical_in_directory_lem :
    (p : Paging) (directory virt_addr : ℕ)
    → directory ≢ 0
    → paging_get_physical_in_directory p directory virt_addr ≡ (
        if is_present (page_of p directory virt_addr)
        then page_frame (page_of p directory virt_addr) + page_offset virt_addr
        else 0)
unfolding paging_get_physical_in_directory
paging_get_physical_in_directory_lem p directory virt_addr given =
    elim (Bool-cases (is_present (entry p directory (page_dir_index virt_addr)))) [
      | inl on ↦ rw on (ground arith)
      | inr absent ↦ rw absent (ground arith)
    ]

pub paging_is_mapped_lem :
    (p : Paging) (virt_addr : ℕ)
    → paging_is_mapped p virt_addr ≡ is_present (page_of p p.current_directory virt_addr)
unfolding paging_is_mapped
paging_is_mapped_lem p virt_addr =
    elim (Bool-cases (is_present (entry p p.current_directory (page_dir_index virt_addr)))) [
      | inl on ↦ rw on refl
      | inr absent ↦ rw absent refl
    ]

-- Addresses below 2 ^ 32 with the same pair of indices are in the same page.
same_page :
    (a b : ℕ)
    → a < 0x1_0000_0000
    → b < 0x1_0000_0000
    → (page_dir_index a == page_dir_index b && page_table_index a == page_table_index b)
      ≡ (a / 4096 == b / 4096)
same_page a b ha hb = ground arith

-- The entry of any address after the change of one page.
page_of-Changed :
    {p q : Paging} {directory virt_addr word : ℕ}
    → Changed p directory virt_addr word q
    → virt_addr < 0x1_0000_0000
    → (a : ℕ) → a < 0x1_0000_0000
    → page_of q directory a ≡ (if a / 4096 == virt_addr / 4096 then word else page_of p directory a)
page_of-Changed {p} {q} {directory} {virt_addr} {word} c hv a ha =
    c.pages (page_dir_index a) (page_table_index a) (omega arith) (omega arith)
    ∙ ap (λ t. if t then word else page_of p directory a) (same_page a virt_addr ha hv)

module _ {p : Paging} {directory virt_addr : ℕ} (v : IsSpace p directory)
    (hv : virt_addr < 0x1_0000_0000) (a : ℕ) (ha : a < 0x1_0000_0000) where
  physical_of-Changed :
      {q : Paging} {word : ℕ}
      → Changed p directory virt_addr word q
      → paging_get_physical_in_directory q directory a ≡ (
          if a / 4096 == virt_addr / 4096
          then if is_present word then page_frame word + page_offset a else 0
          else paging_get_physical_in_directory p directory a)
  physical_of-Changed {q} {word} c = elim (Bool-cases (a / 4096 == virt_addr / 4096)) [
    | inl e ↦
        rw
          (
            paging_get_physical_in_directory_lem q directory a v.exists,
            page_of-Changed c hv a ha,
            e,
          )
          refl
    | inr ne ↦
        rw
          (
            paging_get_physical_in_directory_lem q directory a v.exists,
            page_of-Changed c hv a ha,
            ne,
          )
          (sym (paging_get_physical_in_directory_lem p directory a v.exists))
  ]

  -- In a well-formed directory, a page mapped with a present flag is found at its frame: the
  -- addresses of the page lead into it, and every other address of the 32 bits to where it led.
  pub paging_get_physical-paging_map_page :
      (phys_addr flags : ℕ)
      → flags % 2 ≡ 1
      → (q : Paging) → paging_map_page_in_directory p directory virt_addr phys_addr flags ≡ some q
      → paging_get_physical_in_directory q directory a ≡ (
          if a / 4096 == virt_addr / 4096
          then page_frame phys_addr + page_offset a
          else paging_get_physical_in_directory p directory a)
  paging_get_physical-paging_map_page phys_addr flags hf q e =
      elim (paging_map_page_in_directory_lem virt_addr phys_addr flags v) [
        | inl (failed, rest, none_free) ↦ absurd (cc (failed, e))
        | inr (r, got, c) ↦
            let same : r ≡ q = cc (got, e) in
            let present : is_present (mapping phys_addr flags) ≡ true = ground arith in
            let frame : page_frame (mapping phys_addr flags) ≡ page_frame phys_addr = omega arith in
            physical_of-Changed (rw same at c)
            ∙ ap
                (λ t.
                  if a / 4096 == virt_addr / 4096
                  then t
                  else paging_get_physical_in_directory p directory a)
                (rw (present, frame) refl)
      ]

  -- In a well-formed directory, an unmapped page is found nowhere, and every other address leads to
  -- where it led.
  pub paging_get_physical-paging_unmap_page :
      paging_get_physical_in_directory
        (paging_unmap_page_in_directory p directory virt_addr)
        directory
        a
      ≡ (if a / 4096 == virt_addr / 4096 then 0 else paging_get_physical_in_directory p directory a)
  paging_get_physical-paging_unmap_page =
      physical_of-Changed (paging_unmap_page_in_directory_lem virt_addr v)
