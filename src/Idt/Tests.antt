-- ===== src/Idt/Tests.antt =====
-- Tests of the interrupt code.
use kfs.Base.{
  ℕ, ◌%◌, ◌≡◌, ◌≢◌, refl, arith, ltb, if◌then◌else◌, [], ◌∷◌, Option, none, some, length,
  length-replicate,
}
use kfs.Idt.{
  Idt, outb, handle, panic, idt_entry_count, idt_clear_tables, pic_set_mask, pic_clear_mask,
  idt_register_handler, idt_unregister_handler, idt_handle_interrupt,
}
use kfs.Idt.Dispatch.{idt_handle_interrupt_lem, end_of_interrupt}

-- The mask of line 10 lies in the second controller.
mask_line_10 : pic_set_mask {H = ℕ} 0xF1 10 ≡ outb 0xA1 0xF5 ∷ []
unfolding pic_set_mask
mask_line_10 = refl

unmask_line_10 : pic_clear_mask {H = ℕ} 0xF5 10 ≡ outb 0xA1 0xF1 ∷ []
unfolding pic_clear_mask
unmask_line_10 = refl

no_handlers : Idt ℕ
no_handlers = idt_clear_tables

length-no_handlers : length no_handlers.interrupt_handlers ≡ 256
unfolding no_handlers
length-no_handlers = length-replicate {A = Option ℕ} idt_entry_count none

idt_handle_interrupt_lem_example :
    (◌%◌ 41 256 ≡ 41
      → (idt_handle_interrupt (idt_register_handler no_handlers 41 (some 7)) (some 41)
          ≡ handle 7 41 ∷ end_of_interrupt 41)
        × (idt_handle_interrupt (idt_unregister_handler no_handlers 41) (some 41)
            ≡ (if ltb 41 32 then panic 41 ∷ [] else end_of_interrupt 41)))
    × (◌%◌ 41 256 ≢ 41
        → (idt_handle_interrupt (idt_register_handler no_handlers 41 (some 7)) (some 41)
            ≡ idt_handle_interrupt no_handlers (some 41))
          × (idt_handle_interrupt (idt_unregister_handler no_handlers 41) (some 41)
              ≡ idt_handle_interrupt no_handlers (some 41)))
idt_handle_interrupt_lem_example =
    idt_handle_interrupt_lem no_handlers 41 41 7 length-no_handlers (omega arith)
