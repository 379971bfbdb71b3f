-- ===== src/Paging/Tests.antt =====
-- The theorems of the paging code at concrete directories.
use kfs.Base.{◌+◌, ◌/◌, ◌≡◌, refl, ◌⊎◌, inl, false, none, some, arith, ◌==◌, if◌then◌else◌}
use kfs.Pmm.{pmm_alloc_frame}
use kfs.Pmm.Bitmap.Laws.{bitmap_test-full}
use kfs.Pmm.Init.{all_used}
use kfs.Pmm.Init.Boot.{all_used-IsValid}
use kfs.Paging.{
  Paging, is_present, page_dir_index, page_offset, page_frame, write, mapping,
  paging_get_or_create_table, paging_map_page_in_directory, paging_get_physical_in_directory,
  paging_get_physical, paging_init,
}
use kfs.Paging.Space.{IsSpace, entry}
use kfs.Paging.Mapping.{Changed, paging_map_page_in_directory_lem}
use kfs.Paging.Lookup.{paging_get_physical-paging_map_page}
use kfs.Paging.Boot.{paging_init_lem}
use kfs.Paging.Identity.{Identity}

-- A directory at 0x1000 with one table, at 0x2000, for the first 4 MB.
one_table : Paging
one_table = record {
  pmm = all_used 69632;
  memory = λ a. if a == 0x1000 then 0x2003 else 0;
  current_directory = 0x1000;
  kernel_directory = 0x1000;
}

one_table-IsSpace : IsSpace one_table 0x1000
unfolding one_table all_used
one_table-IsSpace = record {
  frames = all_used-IsValid 69632 (omega arith);
  aligned = refl;
  exists = omega arith;
  used = bitmap_test-full 1 (omega arith);
  tables_used = λ i hi on.
      let second : entry one_table 0x1000 i / 4096 ≡ 2 = ground arith in
      rw second (bitmap_test-full 2 (omega arith));
  tables_apart = λ i hi on. ground arith;
  tables_distinct = λ i j hi hj ne oni onj. ground arith;
}

paging_map_page_in_directory_lem_example :
    ((paging_map_page_in_directory one_table 0x1000 0x5678 0x9ABC 3 ≡ none)
      × (is_present (entry one_table 0x1000 (page_dir_index 0x5678)) ≡ false)
      × ((pmm_alloc_frame one_table.pmm).0 ≡ 0))
    ⊎ ((q : Paging) × (paging_map_page_in_directory one_table 0x1000 0x5678 0x9ABC 3 ≡ some q)
        × Changed one_table 0x1000 0x5678 (mapping 0x9ABC 3) q)
paging_map_page_in_directory_lem_example =
    paging_map_page_in_directory_lem 0x5678 0x9ABC 3 one_table-IsSpace

-- The page of 0x5000 mapped to the frame 9.
one_page : Paging
one_page = record one_table { memory = write (write one_table.memory 0x1000 0x2003) 0x2014 0x9003 }

one_page_lem : paging_map_page_in_directory one_table 0x1000 0x5678 0x9ABC 3 ≡ some one_page
unfolding paging_map_page_in_directory paging_get_or_create_table one_page one_table
one_page_lem = refl

paging_get_physical-paging_map_page_example :
    paging_get_physical_in_directory one_page 0x1000 0x5432 ≡ (
      if (◌/◌ 0x5432 4096) == (◌/◌ 0x5678 4096)
      then page_frame 0x9ABC + page_offset 0x5432
      else paging_get_physical_in_directory one_table 0x1000 0x5432)
paging_get_physical-paging_map_page_example =
    paging_get_physical-paging_map_page {virt_addr = 0x5678} one_table-IsSpace (omega arith) 0x5432
      (omega arith) 0x9ABC 3 refl one_page one_page_lem

paging_init_lem_example :
    paging_get_physical (paging_init 0x1000 0x2000 one_table) 0xB8000 ≡ 0xB8000
paging_init_lem_example =
    paging_init_lem 0x1000 0x2000 refl refl (inl (omega arith)) (omega arith) one_table 0xB8000
      (omega arith)
