-- ===== src/Timer/Tests.antt =====
-- Tests of the timer.
use kfs.Base.{ℕ, ◌/◌, ◌≤◌, ◌<◌, ◌≡◌, ◌≢◌, refl, [], ◌∷◌}
use kfs.Idt.{Idt, outb, idt_clear_tables, pic_clear_mask}
use kfs.Timer.{Timer, pit_base_frequency, timer_init}
use kfs.Timer.Divisor.{chip_divisor, timer_init_lem}

stopped : Timer × Idt ℕ
stopped = (record { pit_ticks = 0; pit_frequency = 0 }, idt_clear_tables)

-- 100 Hz: the divisor 11931 is 0x2E9B, and lines 0 and 2 are let through.
writes_100 :
    (timer_init 7 (0xF9, 0xF8) stopped 100).2
    ≡ outb 0x43 0x36 ∷ outb 0x40 0x9B ∷ outb 0x40 0x2E ∷ outb 0x21 0xF8 ∷ outb 0x21 0xF8 ∷ []
unfolding timer_init stopped pic_clear_mask
writes_100 = refl

-- 18 Hz: the chip counts 751, so that it ticks 1588 times a second.
too_slow : chip_divisor (timer_init 7 (0xF9, 0xF8) stopped 18).2 ≡ 751
unfolding timer_init stopped
too_slow = refl

timer_init_lem_example :
    let divisor = chip_divisor (timer_init 7 (0xF9, 0xF8) stopped 18).2 in
    (19 ≤ 18 → 18 ≤ pit_base_frequency → divisor ≡ pit_base_frequency / 18)
    × (pit_base_frequency < 18 → divisor ≡ 1)
    × (◌≡◌ {A = ℕ} 18 0 → divisor ≡ pit_base_frequency / 100)
    × (◌≢◌ {A = ℕ} 18 0 → 18 < 19 → divisor < pit_base_frequency / 18)
timer_init_lem_example = timer_init_lem 7 (0xF9, 0xF8) stopped 18
