-- ===== src/Idt.antt =====
-- Interrupt gates and the dispatch of interrupts, kernel/src/idt.c. `H` stands for the addresses of
-- handlers. What a call does to ports and handlers is a list of effects, in order; what is read from
-- a port is an argument.
pub mod Gates
pub mod Dispatch
mod Tests
use kfs.Base.{
  ℕ, zero, suc, ◌+◌, ◌-◌, ◌*◌, ◌/◌, ◌%◌, ◌^◌, Bool, true, false, ◌&&◌, Option, none, some, List, [],
  ◌∷◌, ◌++◌, ltb, leb, ◌==◌, if◌then◌else◌, get_or, set, replicate, not32, bit_and, bit_or, u8,
}

pub record IdtEntry : Type 0 where
  pub base_low : ℕ
  pub selector : ℕ
  pub zero' : ℕ
  pub flags : ℕ
  pub base_high : ℕ

pub record Idt (H : Type 0) : Type 0 where
  pub idt_entries : List IdtEntry
  pub interrupt_handlers : List (Option H)

abbrev pub idt_entry_count : ℕ
idt_entry_count = 256

abbrev pub irq_base_vector : ℕ
irq_base_vector = 32

abbrev pub syscall_vector : ℕ
syscall_vector = 0x80

-- A write to a port, a call of a handler, or the panic with the message of an exception.
pub data Effect (H : Type 0) : Type 0 where
  outb : ℕ → ℕ → Effect H
  handle : H → ℕ → Effect H
  panic : ℕ → Effect H

abbrev pub empty_gate : IdtEntry
empty_gate = record { base_low = 0; selector = 0; zero' = 0; flags = 0; base_high = 0 }

abbrev pub gate : ℕ → ℕ → ℕ → IdtEntry
gate base selector flags = record {
  base_low = base % 65536;
  selector = selector;
  zero' = 0;
  flags = flags;
  base_high = base / 65536 % 65536;
}

unfoldable pub idt_set_gate : List IdtEntry → ℕ → ℕ → ℕ → ℕ → List IdtEntry
idt_set_gate entries vector base selector flags = set entries vector (gate base selector flags)

-- The loop of `idt_init` over the vectors from `vector` on. GDT_KERNEL_CODE_SELECTOR is 8 and
-- IDT_FLAG_INTERRUPT_GATE is 0x8E.
unfoldable pub set_gates : (ℕ → ℕ) → ℕ → ℕ → List IdtEntry → List IdtEntry
unfolding idt_set_gate
set_gates stub zero vector entries = entries
set_gates stub (suc rounds) vector entries =
    set_gates stub rounds (vector + 1) (idt_set_gate entries (u8 vector) (stub vector) 8 0x8E)

-- The port and the bit of an interrupt line's mask. The shift is that of an `unsigned`.
abbrev pub mask_port : ℕ → ℕ
mask_port irq = if ltb irq 8 then 0x21 else 0xA1

abbrev pub mask_bit : ℕ → ℕ
mask_bit irq = u8 (2 ^ (if ltb irq 8 then irq else irq - 8))

module _ {H : Type 0} where
  abbrev pub idt_clear_tables : Idt H
  idt_clear_tables = record {
    idt_entries = replicate idt_entry_count empty_gate;
    interrupt_handlers = replicate idt_entry_count none;
  }

  -- The tables; `stub` is `interrupt_stub_table`.
  unfoldable pub idt_init : (ℕ → ℕ) → ℕ → Idt H
  idt_init stub isr128 = record {
    idt_entries =
        idt_set_gate (set_gates stub 48 0 (replicate idt_entry_count empty_gate)) syscall_vector
          isr128 8 0xEE;
    interrupt_handlers = replicate idt_entry_count none;
  }

  unfoldable pub idt_register_handler : Idt H → ℕ → Option H → Idt H
  idt_register_handler t vector handler = record t {
    interrupt_handlers = set t.interrupt_handlers vector handler;
  }

  unfoldable pub idt_unregister_handler : Idt H → ℕ → Idt H
  idt_unregister_handler t vector = record t {
    interrupt_handlers = set t.interrupt_handlers vector none;
  }

  -- What `pic_remap` writes to the ports of the two controllers; the masks are those read first.
  unfoldable pub pic_remap : ℕ → ℕ → ℕ → ℕ → List (Effect H)
  pic_remap master_mask slave_mask master_offset slave_offset =
      outb 0x20 0x11
      ∷ outb 0xA0 0x11
      ∷ outb 0x21 master_offset
      ∷ outb 0xA1 slave_offset
      ∷ outb 0x21 4
      ∷ outb 0xA1 2
      ∷ outb 0x21 1
      ∷ outb 0xA1 1
      ∷ outb 0x21 master_mask
      ∷ outb 0xA1 slave_mask
      ∷ []

  unfoldable pub pic_send_eoi : ℕ → List (Effect H)
  pic_send_eoi irq = if leb 8 irq then outb 0xA0 0x20 ∷ outb 0x20 0x20 ∷ [] else outb 0x20 0x20 ∷ []

  -- `value` is what the mask's port delivers.
  unfoldable pub pic_set_mask : ℕ → ℕ → List (Effect H)
  pic_set_mask value irq = outb (mask_port irq) (bit_or value (mask_bit irq)) ∷ []

  unfoldable pub pic_clear_mask : ℕ → ℕ → List (Effect H)
  pic_clear_mask value irq = outb (mask_port irq) (bit_and value (255 - mask_bit irq)) ∷ []

  abbrev pub serve_vector : Option H → ℕ → List (Effect H)
  serve_vector (some handler) vector = handle handler vector ∷ []
  serve_vector none vector = if ltb vector 32 then panic vector ∷ [] else []

  -- `int_no` is `registers->int_no`, or nothing for a null pointer.
  unfoldable pub idt_handle_interrupt : Idt H → Option ℕ → List (Effect H)
  unfolding pic_send_eoi
  idt_handle_interrupt t none = []
  idt_handle_interrupt t (some int_no) =
      let vector = int_no % 256 in
      let served = serve_vector (get_or t.interrupt_handlers vector none) vector in
      if leb irq_base_vector vector && ltb vector (irq_base_vector + 16)
      then served ++ pic_send_eoi (vector - irq_base_vector)
      else served
