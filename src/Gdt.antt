-- ===== src/Gdt.antt =====
-- The segment descriptors, kernel/src/gdt.c. `|` of two fields that share no bit is a sum.
pub mod Segment
mod Tests
use kfs.Base.{
  ℕ, ◌+◌, ◌-◌, ◌*◌, ◌/◌, ◌%◌, ◌<◌, ◌≡◌, ◌≢◌, refl, ap, ◌∙◌, arith, leb, ltb, ◌&&◌, ◌==◌,
  if◌then◌else◌, true, false, List, [], ◌∷◌, ◌++◌, get_or, set, length, get_or-set_self,
  get_or-set_ne,
}

pub record GdtEntry : Type 0 where
  pub limit_low : ℕ
  pub base_low : ℕ
  pub base_middle : ℕ
  pub access : ℕ
  pub granularity : ℕ
  pub base_high : ℕ

abbrev pub gdt_entry_count : ℕ
gdt_entry_count = 7

abbrev pub gdt_base_address : ℕ
gdt_base_address = 0x800

abbrev pub null_entry : GdtEntry
null_entry = record {
  limit_low = 0;
  base_low = 0;
  base_middle = 0;
  access = 0;
  granularity = 0;
  base_high = 0;
}

unfoldable pub gdt_set_gate : List GdtEntry → ℕ → ℕ → ℕ → ℕ → ℕ → List GdtEntry
gdt_set_gate entries num base limit access gran = set entries num (record {
  base_low = base % 65536;
  base_middle = base / 65536 % 256;
  base_high = base / 16777216 % 256;
  limit_low = limit % 65536;
  granularity = limit / 65536 % 16 + gran / 16 % 16 * 16;
  access = access;
})

-- The bytes of an entry, which is packed.
abbrev pub entry_bytes : GdtEntry → List ℕ
entry_bytes e =
    e.limit_low % 256
    ∷ e.limit_low / 256
    ∷ e.base_low % 256
    ∷ e.base_low / 256
    ∷ e.base_middle
    ∷ e.access
    ∷ e.granularity
    ∷ e.base_high
    ∷ []

abbrev pub table_bytes : List GdtEntry → List ℕ
table_bytes [] = []
table_bytes (e ∷ es) = entry_bytes e ++ table_bytes es

unfoldable pub gdt_copy_to_low_memory : (ℕ → ℕ) → List GdtEntry → ℕ → ℕ
gdt_copy_to_low_memory memory entries a =
    if leb gdt_base_address a && ltb a (gdt_base_address + 8 * gdt_entry_count)
    then get_or (table_bytes entries) (a - gdt_base_address) 0
    else memory a

-- The entries as `init_gdt` leaves them, before they are copied and loaded.
unfoldable pub init_entries : List GdtEntry → List GdtEntry
unfolding gdt_set_gate
init_entries entries =
    let null = gdt_set_gate entries 0 0 0 0 0 in
    let code = gdt_set_gate null 1 0 0xFFFF_FFFF 0x9A 0xCF in
    let data' = gdt_set_gate code 2 0 0xFFFF_FFFF 0x92 0xCF in
    let stack = gdt_set_gate data' 3 0 0xFFFF_FFFF 0x92 0xCF in
    let user_code = gdt_set_gate stack 4 0 0xFFFF_FFFF 0xFA 0xCF in
    let user_data = gdt_set_gate user_code 5 0 0xFFFF_FFFF 0xF2 0xCF in
    gdt_set_gate user_data 6 0 0xFFFF_FFFF 0xF2 0xCF
