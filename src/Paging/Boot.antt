-- ===== src/Paging/Boot.antt =====
-- What `paging_init` leaves: the first 16 MB mapped to themselves, and nothing else mapped.
use native.Mathlib.Decide.{ℕ_discrete}
use kfs.Base.{
  ℕ, zero, suc, ◌+◌, ◌*◌, ◌/◌, ◌%◌, ◌≤◌, ◌<◌, ◌≡◌, ◌≢◌, refl, ◌∙◌, ◌⊎◌, inl, inr, true, ◌&&◌, arith,
  leb, ltb, if◌then◌else◌, Bool-cases,
}
use kfs.Paging.{
  Paging, is_present, page_frame, entry_at, write, clear_page, fill_table, map_tables, clear_tables,
  kernel_table, paging_init, paging_get_physical, page_dir_index, page_table_index,
}
use kfs.Paging.Space.{entry}
use kfs.Paging.Lookup.{page_of, paging_get_physical_in_directory_lem}

fill_table_at :
    (rounds j : ℕ) (memory : ℕ → ℕ) (table i n : ℕ)
    → fill_table memory table i rounds j (entry_at table n) ≡ (
        if leb j n && ltb n (j + rounds)
        then (i * 1024 + n) * 4096 + 3
        else memory (entry_at table n))
unfolding fill_table
fill_table_at zero j memory table i n = ground arith
fill_table_at (suc rounds) j memory table i n =
    fill_table_at rounds (j + 1) (write memory (entry_at table j) ((i * 1024 + j) * 4096 + 3)) table
      i n
    ∙ ground arith

fill_table_elsewhere :
    (rounds j : ℕ) (memory : ℕ → ℕ) (table i : ℕ)
    → table % 4096 ≡ 0
    → j + rounds ≤ 1024
    → (a : ℕ) → table / 4096 ≢ a / 4096
    → fill_table memory table i rounds j a ≡ memory a
unfolding fill_table
fill_table_elsewhere zero j memory table i ht le a ne = refl
fill_table_elsewhere (suc rounds) j memory table i ht le a ne =
    fill_table_elsewhere rounds (j + 1)
      (write memory (entry_at table j) ((i * 1024 + j) * 4096 + 3)) table i ht (omega arith) a ne
    ∙ ground arith

module _ (directory tables : ℕ) (hd : directory % 4096 ≡ 0) (ht : tables % 4096 ≡ 0)
    (apart : (directory < tables) ⊎ (tables + 16384 ≤ directory)) where
  map_tables_directory :
      (rounds i : ℕ) (memory : ℕ → ℕ) (n : ℕ)
      → i + rounds ≤ 4
      → n < 1024
      → map_tables directory tables memory rounds i (entry_at directory n) ≡ (
          if leb i n && ltb n (i + rounds)
          then kernel_table directory tables n + 3
          else memory (entry_at directory n))
  unfolding map_tables
  map_tables_directory zero i memory n le ln = ground arith
  map_tables_directory (suc rounds) i memory n le ln =
      map_tables_directory rounds (i + 1) _ n (omega arith) ln
      ∙ ground (
        arith,
        fill_table_elsewhere 1024 0 memory (kernel_table directory tables i) i (omega arith)
            (omega arith) (entry_at directory n) (omega arith),
      )

  map_tables_page :
      (rounds i : ℕ) (memory : ℕ → ℕ) (n j : ℕ)
      → i + rounds ≤ 4
      → n < 4
      → j < 1024
      → map_tables directory tables memory rounds i (entry_at (kernel_table directory tables n) j)
        ≡ (if leb i n && ltb n (i + rounds)
            then (n * 1024 + j) * 4096 + 3
            else memory (entry_at (kernel_table directory tables n) j))
  unfolding map_tables
  map_tables_page zero i memory n j le ln lj = ground arith
  map_tables_page (suc rounds) i memory n j le ln lj =
      let filled = fill_table memory (kernel_table directory tables i) i 1024 0 in
      let at = entry_at (kernel_table directory tables n) j in
      let aside : write filled (entry_at directory i) (kernel_table directory tables i + 3) at
          ≡ filled at =
        ground arith in
      map_tables_page rounds (i + 1) _ n j (omega arith) ln lj
      ∙ rw aside (elim (ℕ_discrete i n) [
        | yes e ↦
            rw (← e)
              (ground (arith, fill_table_at 1024 0 memory (kernel_table directory tables i) i j))
        | no ne ↦ ground (
          arith,
          fill_table_elsewhere 1024 0 memory (kernel_table directory tables i) i (omega arith)
              (omega arith) at (omega arith),
        )
      ])

  clear_tables_directory :
      (rounds i : ℕ) (memory : ℕ → ℕ) (n : ℕ)
      → i + rounds ≤ 4
      → n < 1024
      → clear_tables directory tables memory rounds i (entry_at directory n)
        ≡ memory (entry_at directory n)
  unfolding clear_tables
  clear_tables_directory zero i memory n le ln = refl
  clear_tables_directory (suc rounds) i memory n le ln =
      clear_tables_directory rounds (i + 1) (clear_page memory (kernel_table directory tables i)) n
        (omega arith) ln
      ∙ ground arith

  -- With the directory and its tables in pages of their own, `paging_init` leaves a current
  -- directory that maps each of the first 16 MB to itself and no other address of the 32 bits.
  pub paging_init_lem :
      directory ≢ 0
      → (p : Paging) (a : ℕ) → a < 0x1_0000_0000
      → paging_get_physical (paging_init directory tables p) a ≡ (if ltb a 0x100_0000 then a else 0)
  unfolding paging_init paging_get_physical
  paging_init_lem given p a ha =
      let q = paging_init directory tables p in
      let k = page_dir_index a in
      let there : entry q directory k
          ≡ (if ltb k 4 then kernel_table directory tables k + 3 else 0) =
        map_tables_directory 4 0 _ k (omega arith) (omega arith)
        ∙ ground (
          arith,
          clear_tables_directory 4 0 (clear_page p.memory directory) k (omega arith) (omega arith),
        ) in
      paging_get_physical_in_directory_lem q directory a given ∙ elim (Bool-cases (ltb k 4)) [
        | inl low ↦
            let lt : k < 4 = ground (arith, low) in
            let here : entry q directory k ≡ kernel_table directory tables k + 3 =
              rw low at there in
            let frame : page_frame (entry q directory k) ≡ kernel_table directory tables k =
              omega (arith, here) in
            let on : is_present (entry q directory k) ≡ true = ground (arith, here) in
            let page : page_of q directory a ≡ (k * 1024 + page_table_index a) * 4096 + 3 =
              rw (on, frame)
                (map_tables_page 4 0 _ k (page_table_index a) (omega arith) lt (omega arith)
                  ∙ ground arith) in
            rw page (ground arith)
        | inr high ↦
            let here : entry q directory k ≡ 0 = rw high at there in
            let page : page_of q directory a ≡ 0 = rw here refl in rw page (ground arith)
      ]
