-- ===== src/Paging/Create.antt =====
-- The table that `paging_get_or_create_table` makes where there is none.
use native.Mathlib.Decide.{ℕ_discrete}
use kfs.Base.{
  ℕ, ◌+◌, ◌*◌, ◌/◌, ◌<◌, ◌≡◌, ◌≢◌, refl, sym, ap, ◌∙◌, ◌⊎◌, inl, inr, true, false, arith, ◌==◌,
  ==_iff, if◌then◌else◌, none, some, Bool-cases,
}
use kfs.Pmm.{Pmm, pmm_alloc_frame}
use kfs.Pmm.Invariant.{is_used}
use kfs.Pmm.Alloc.{Allocated, pmm_alloc_frame_lem}
use kfs.Paging.{
  Paging, is_present, add_user, entry_at, page_frame, write, clear_page, page_dir_index,
  paging_get_or_create_table,
}
use kfs.Paging.Space.{
  IsSpace, entry, page_entry, view, write_apart, write_same, clear_apart, clear_inside,
  IsSpace-update,
}
use kfs.Paging.Table.{rewritten, rewritten-Ready, add_user_lem, Ready, view_eq}

-- A new table, in a frame that has just been allocated.
module _ {p : Paging} {directory : ℕ} (v : IsSpace p directory) (k flags : ℕ) (hk : k < 1024)
    (absent : is_present (entry p directory k) ≡ false) {pmm : Pmm} {addr : ℕ}
    (got : Allocated p.pmm addr pmm) where
  created : Paging
  created = record p {
    pmm = pmm;
    memory = write (clear_page p.memory addr) (entry_at directory k) (add_user flags (addr + 3));
  }

  fresh : (f : ℕ) → is_used p.pmm f ≡ true → got.frame ≢ f
  fresh f used e = cc (got.was_free, used, e)

  entry-created :
      (i : ℕ)
      → i < 1024
      → entry created directory i
        ≡ (if i == k then add_user flags (addr + 3) else entry p directory i)
  unfolding created
  entry-created i hi =
      write_same (clear_page p.memory addr) directory k (add_user flags (addr + 3)) i
      ∙ ap (λ n. if i == k then add_user flags (addr + 3) else n)
          (clear_apart p.memory addr directory i (omega (arith, got.address)) v.aligned hi
            (λ e. fresh (directory / 4096) v.used (omega (arith, got.address))))

  created_page :
      (i j : ℕ)
      → i < 1024
      → j < 1024
      → is_present (entry p directory i) ≡ true
      → page_entry created (entry p directory i) j ≡ page_entry p (entry p directory i) j
  unfolding created
  created_page i j hi hj on =
      let e = entry p directory i in
      write_apart (clear_page p.memory addr) directory k (add_user flags (addr + 3)) (page_frame e)
        j v.aligned (omega arith) hk hj (λ eq. v.tables_apart i hi on (omega arith))
      ∙ clear_apart p.memory addr (page_frame e) j (omega (arith, got.address)) (omega arith) hj
          (λ eq. fresh (e / 4096) (v.tables_used i hi on) (omega (arith, got.address)))

  created_empty : (j : ℕ) → j < 1024 → page_entry created (add_user flags (addr + 3)) j ≡ 0
  unfolding created
  created_empty j hj =
      let word : page_frame (add_user flags (addr + 3)) ≡ addr =
        ground (arith, add_user_lem flags (addr + 3), got.address) in
      rw word (
        write_apart (clear_page p.memory addr) directory k (add_user flags (addr + 3)) addr j
          v.aligned (omega (arith, got.address)) hk hj
          (λ eq. fresh (directory / 4096) v.used (omega (arith, got.address)))
        ∙ clear_inside p.memory addr j hj)

  created_word :
      (add_user flags (addr + 3) / 4096 ≡ got.frame)
      × (is_present (add_user flags (addr + 3)) ≡ true)
  created_word = (
    ground (arith, add_user_lem flags (addr + 3), got.address),
    ground (arith, add_user_lem flags (addr + 3), got.address),
  )

  created_here : entry created directory k ≡ add_user flags (addr + 3)
  created_here = ground (arith, entry-created k hk)

  created_other : (i : ℕ) → i < 1024 → k ≢ i → entry created directory i ≡ entry p directory i
  created_other i hi ne = ground (arith, entry-created i hi)

  created-IsSpace : IsSpace created directory
  unfolding created
  created-IsSpace =
      IsSpace-update v created k got.frame got.valid (λ f used. ground (arith, got.now_used f))
        created_other (ap (λ n. n / 4096) created_here ∙ created_word.0)
        (ground (arith, got.now_used got.frame)) (fresh (directory / 4096) v.used)
        (λ i hi ne on e. fresh (entry p directory i / 4096) (v.tables_used i hi on) (sym e))

  view-created : (i j : ℕ) → i < 1024 → j < 1024 → view created directory i j ≡ view p directory i j
  view-created i j hi hj = elim (ℕ_discrete k i) [
    | yes e ↦ rw (← e, created_here, created_word.1, absent) (created_empty j hj)
    | no ne ↦
        let same : entry created directory i ≡ entry p directory i = created_other i hi ne in
        view_eq p created directory i j (ap is_present same) (ap (λ n. n / 4096) same)
          (created_page i j hi hj)
  ]

  created-Ready : Ready p directory k addr created
  unfolding created
  created-Ready = record {
    space = created-IsSpace;
    there = ap is_present created_here ∙ created_word.1;
    frame = ap page_frame created_here ∙ ap (λ n. n * 4096) created_word.0 ∙ sym got.address;
    same_view = view-created;
    same_current = refl;
  }

-- `paging_get_or_create_table` fails only for want of a frame, where the directory has no table for
-- the address. Else the directory's entry has the table it answers, and every page is as before.
pub paging_get_or_create_table_lem :
    {p : Paging} {directory : ℕ} (virt_addr flags : ℕ)
    → IsSpace p directory
    → ((paging_get_or_create_table p directory virt_addr flags ≡ none)
        × (is_present (entry p directory (page_dir_index virt_addr)) ≡ false)
        × ((pmm_alloc_frame p.pmm).0 ≡ 0))
      ⊎ ((table : ℕ) × (q : Paging) × (paging_get_or_create_table p directory virt_addr flags
            ≡ some (table, q))
          × Ready p directory (page_dir_index virt_addr) table q)
unfolding paging_get_or_create_table rewritten created
paging_get_or_create_table_lem {p} {directory} virt_addr flags v =
    let k = page_dir_index virt_addr in
    let e = entry p directory k in
    elim (Bool-cases (is_present e)) [
      | inl on ↦ inr (
        page_frame e,
        rewritten v k flags (omega arith) (add_user flags e) (add_user_lem flags e),
        rw on refl,
        rewritten-Ready v k flags (omega arith) (add_user flags e) (add_user_lem flags e) on,
      )
      | inr absent ↦ elim (Bool-cases ((pmm_alloc_frame p.pmm).0 == 0)) [
        | inl zero ↦ inl (rw (absent, zero) refl, absent, (==_iff _ 0).0 zero)
        | inr nonzero ↦ elim (pmm_alloc_frame_lem v.frames) [
          | inl (failed, used) ↦ absurd (cc (ap (λ r. r.0 == 0) failed, nonzero))
          | inr got ↦ inr (
            (pmm_alloc_frame p.pmm).0,
            created v k flags (omega arith) absent got,
            rw (absent, nonzero) refl,
            created-Ready v k flags (omega arith) absent got,
          )
        ]
      ]
    ]
