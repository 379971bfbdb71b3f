-- ===== src/Timer.antt =====
-- The timer, kernel/src/timer.c. `W` is what the scheduler works on; `pic1` is what the mask's port
-- delivers before each of the two updates of it.
pub mod Divisor
mod Tests
use kfs.Base.{ℕ, ◌+◌, ◌/◌, ◌%◌, Option, some, List, [], ◌∷◌, ◌++◌, ◌==◌, if◌then◌else◌, add32}
use kfs.Idt.{Idt, Effect, outb, idt_register_handler, pic_clear_mask}

pub record Timer : Type 0 where
  pub pit_ticks : ℕ
  pub pit_frequency : ℕ

abbrev pub pit_base_frequency : ℕ
pit_base_frequency = 1193182

abbrev pub frequency_or_default : ℕ → ℕ
frequency_or_default frequency = if frequency == 0 then 100 else frequency

abbrev pub divisor_for : ℕ → ℕ
divisor_for frequency =
    let divisor = pit_base_frequency / frequency in if divisor == 0 then 1 else divisor

unfoldable pub timer_interrupt : {W : Type 0} → (W → W) → Timer × W → Timer × W
timer_interrupt scheduler_tick (t, w) =
    (record t { pit_ticks = add32 t.pit_ticks 1 }, scheduler_tick w)

-- The handler is `timer_interrupt`'s address; IRQ0_VECTOR is 32.
unfoldable pub timer_init :
    {H : Type 0} → H → ℕ × ℕ → Timer × Idt H → ℕ → Timer × Idt H × List (Effect H)
timer_init handler (pic1, pic1') (t, idt) frequency =
    let asked = frequency_or_default frequency in
    let divisor = divisor_for asked in
    (
      record t { pit_frequency = asked },
      idt_register_handler idt 32 (some handler),
      (outb 0x43 0x36 ∷ outb 0x40 (divisor % 256) ∷ outb 0x40 (divisor / 256 % 256) ∷ [])
          ++ (pic_clear_mask pic1 0 ++ pic_clear_mask pic1' 2),
    )
