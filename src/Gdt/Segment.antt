-- ===== src/Gdt/Segment.antt =====
-- What the processor reads off the descriptors that kernel/src/gdt.c writes.
use kfs.Base.{
  ℕ, ◌+◌, ◌*◌, ◌/◌, ◌%◌, ◌<◌, ◌≡◌, ◌≢◌, ap, ◌∙◌, arith, leb, if◌then◌else◌, List, get_or, length,
  get_or-set_self, get_or-set_ne,
}
use kfs.Gdt.{GdtEntry, null_entry, gdt_set_gate}

-- What the processor reads off an entry.
abbrev pub segment_base : GdtEntry → ℕ
segment_base e = e.base_low + e.base_middle * 65536 + e.base_high * 16777216

-- The last address of the segment: with the granularity bit, the limit counts pages.
abbrev pub segment_limit : GdtEntry → ℕ
segment_limit e =
    let raw = e.limit_low + e.granularity % 16 * 65536 in
    if leb 128 e.granularity then raw * 4096 + 4095 else raw

abbrev pub privilege : GdtEntry → ℕ
privilege e = e.access / 32 % 4

-- An entry that `gdt_set_gate` writes in range is read by the processor as the base given, and the
-- low 20 bits of the limit, in pages where the granularity asks for it. No other entry changes.
pub gdt_set_gate_lem :
    (entries : List GdtEntry) (num base limit access gran : ℕ)
    → num < length entries
    → base < 0x1_0000_0000
    → gran < 256
    → let e = get_or (gdt_set_gate entries num base limit access gran) num null_entry in
      (segment_base e ≡ base)
      × (segment_limit e
          ≡ (if leb 128 gran then limit % 0x10_0000 * 4096 + 4095 else limit % 0x10_0000))
      × (e.access ≡ access)
      × ((other : ℕ)
          → num ≢ other
          → get_or (gdt_set_gate entries num base limit access gran) other null_entry
            ≡ get_or entries other null_entry)
unfolding gdt_set_gate
gdt_set_gate_lem entries num base limit access gran in_range hb hg =
    let e : GdtEntry = record {
      base_low = base % 65536;
      base_middle = base / 65536 % 256;
      base_high = base / 16777216 % 256;
      limit_low = limit % 65536;
      granularity = limit / 65536 % 16 + gran / 16 % 16 * 16;
      access = access;
    } in
    let written = get_or-set_self entries num e null_entry in_range in
    (
      ap segment_base written ∙ omega arith,
      ap segment_limit written ∙ ground arith,
      ap (λ x. x.access) written,
      λ other ne. get_or-set_ne entries num other e null_entry ne,
    )
