-- ===== src/Gdt/Tests.antt =====
-- Tests of the segment descriptors.
use kfs.Base.{ℕ, ◌+◌, ◌*◌, ◌%◌, ◌≡◌, ◌≢◌, refl, arith, leb, if◌then◌else◌, get_or, replicate}
use kfs.Gdt.{
  GdtEntry, null_entry, gdt_entry_count, gdt_set_gate, init_entries, gdt_copy_to_low_memory,
}
use kfs.Gdt.Segment.{segment_base, segment_limit, privilege, gdt_set_gate_lem}

-- User code can reach all 4 GB, at privilege 3.
user_code : GdtEntry
user_code = get_or (init_entries (replicate gdt_entry_count null_entry)) 4 null_entry

user_code_reach :
    (segment_base user_code ≡ 0)
    × (segment_limit user_code ≡ 0xFFFF_FFFF)
    × (privilege user_code ≡ 3)
unfolding user_code init_entries
user_code_reach = (refl, refl, refl)

-- The access byte of the second entry, as it lies in low memory.
low_byte :
    gdt_copy_to_low_memory (λ a. 0) (init_entries (replicate gdt_entry_count null_entry)) 0x80D
    ≡ 0x9A
unfolding gdt_copy_to_low_memory init_entries
low_byte = refl

gdt_set_gate_lem_example :
    let e =
      get_or
        (gdt_set_gate (replicate gdt_entry_count null_entry) 1 0x12345678 0xFFFFF 0x9A 0xCF)
        1
        null_entry in
    (segment_base e ≡ 0x12345678)
    × (segment_limit e
        ≡ (if leb 128 0xCF then (◌%◌ 0xFFFFF 0x10_0000) * 4096 + 4095 else ◌%◌ 0xFFFFF 0x10_0000))
    × (e.access ≡ 0x9A)
    × ((other : ℕ)
        → ◌≢◌ {A = ℕ} 1 other
        → get_or
            (gdt_set_gate (replicate gdt_entry_count null_entry) 1 0x12345678 0xFFFFF 0x9A 0xCF)
            other
            null_entry
          ≡ get_or (replicate gdt_entry_count null_entry) other null_entry)
gdt_set_gate_lem_example =
    gdt_set_gate_lem (replicate gdt_entry_count null_entry) 1 0x12345678 0xFFFFF 0x9A 0xCF
      (omega arith) (omega arith) (omega arith)
