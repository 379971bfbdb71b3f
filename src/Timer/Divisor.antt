-- ===== src/Timer/Divisor.antt =====
-- The divisor that the timer chip is given by `timer_init` in kernel/src/timer.c.
use native.Mathlib.Nat.{le-div_iff_mul-le, div-lt_iff_lt-mul}
use kfs.Base.{
  sym, subst, ℕ, ◌&&◌, ◌+◌, ◌*◌, ◌/◌, ◌%◌, ◌≤◌, ◌<◌, ◌≡◌, ◌≢◌, refl, ap, ◌∙◌, arith, ◌==◌,
  if◌then◌else◌, false, List, ◌∷◌,
}
use kfs.Idt.{Idt, Effect, outb}
use kfs.Timer.{Timer, pit_base_frequency, frequency_or_default, divisor_for, timer_init}

abbrev pub reload : ℕ → ℕ → ℕ
reload low high = if low + 256 * high == 0 then 65536 else low + 256 * high

reload_lem :
    (q : ℕ)
    → (1 ≤ q → q < 65536 → reload (q % 256) (q / 256 % 256) ≡ q)
      × (65537 ≤ q → reload (q % 256) (q / 256 % 256) < q)
reload_lem q = (λ lo hi. ground arith, λ lo. ground arith)

-- The divisor asked for, where the quotient is not 0.
divisor_lem :
    (frequency : ℕ)
    → frequency ≢ 0
    → 1 ≤ pit_base_frequency / frequency
    → divisor_for (frequency_or_default frequency) ≡ pit_base_frequency / frequency
divisor_lem frequency nonzero positive =
    let asked : frequency == 0 ≡ false = ground arith in
    let large : pit_base_frequency / frequency == 0 ≡ false = ground arith in rw (asked, large) refl

-- What the chip makes of the writes: after the command, the low and the high byte of the divisor,
-- where 0 stands for 65536. The answer is 0 for any other sequence.
abbrev pub chip_divisor : {H : Type 0} → List (Effect H) → ℕ
chip_divisor (outb p c ∷ outb q low ∷ outb r high ∷ rest) =
    if p == 0x43 && (c == 0x36 && (q == 0x40 && r == 0x40)) then reload low high else 0
chip_divisor other = 0

-- Of a frequency from 19 on, `timer_init` gives the chip the quotient of the base frequency by it,
-- 1 at least; a frequency of 0 is taken as 100. Below 19 the quotient has more than 16 bits, and the
-- chip gets another, smaller one.
pub timer_init_lem :
    {H : Type 0} (handler : H) (masks : ℕ × ℕ) (ti : Timer × Idt H) (frequency : ℕ)
    → let divisor = chip_divisor (timer_init handler masks ti frequency).2 in
      (19 ≤ frequency → frequency ≤ pit_base_frequency → divisor ≡ pit_base_frequency / frequency)
      × (pit_base_frequency < frequency → divisor ≡ 1)
      × (frequency ≡ 0 → divisor ≡ pit_base_frequency / 100)
      × (frequency ≢ 0 → frequency < 19 → divisor < pit_base_frequency / frequency)
unfolding timer_init
timer_init_lem handler masks ti frequency =
    let loaded : ℕ → ℕ = λ q. reload (q % 256) (q / 256 % 256) in
    let q = pit_base_frequency / frequency in
    (
      λ lo hi.
          let one_or_more : 1 ≤ q = (le-div_iff_mul-le (omega arith)).1 (omega arith) in
          let in_word : q < 65536 = (div-lt_iff_lt-mul (omega arith)).1 (omega arith) in
          ap loaded (divisor_lem frequency (omega arith) one_or_more)
          ∙ (reload_lem q).0 one_or_more in_word,
      λ hi.
          let quotient : q ≡ 0 =
            let below : q < 1 = (div-lt_iff_lt-mul (omega arith)).1 (omega arith) in omega arith in
          let asked : frequency == 0 ≡ false = ground arith in
          let divisor : divisor_for (frequency_or_default frequency) ≡ 1 =
            rw (asked, quotient) refl in
          ap loaded divisor,
      λ zero. ap (λ f. loaded (divisor_for (frequency_or_default f))) zero,
      λ nonzero lo.
          let large : 65537 ≤ q = (le-div_iff_mul-le (omega arith)).1 (omega arith) in
          subst (λ n. loaded n < q) (sym (divisor_lem frequency nonzero (omega arith)))
            ((reload_lem q).1 large),
    )
