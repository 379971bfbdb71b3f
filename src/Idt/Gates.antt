-- ===== src/Idt/Gates.antt =====
-- The gates that `idt_init` sets up.
use native.Mathlib.Decide.{ℕ_discrete}
use kfs.Base.{
  ℕ, zero, suc, ◌+◌, ◌≤◌, ◌<◌, ◌≡◌, sym, ap, ◌∙◌, arith, leb, ltb, ◌&&◌, ◌==◌, if◌then◌else◌, true,
  false, List, get_or, set, replicate, length, u8, length-set, length-replicate, get_or-set_self,
  get_or-set_ne, get_or-replicate,
}
use kfs.Idt.{IdtEntry, idt_entry_count, empty_gate, gate, idt_set_gate, set_gates, idt_init}

set_gates_lem :
    (stub : ℕ → ℕ) (rounds vector : ℕ) (entries : List IdtEntry)
    → vector + rounds ≤ 256
    → length entries ≡ 256
    → (length (set_gates stub rounds vector entries) ≡ 256)
      × ((n : ℕ)
          → get_or (set_gates stub rounds vector entries) n empty_gate ≡ (
              if leb vector n && ltb n (vector + rounds)
              then gate (stub n) 8 0x8E
              else get_or entries n empty_gate))
unfolding set_gates idt_set_gate
set_gates_lem stub zero vector entries le len = (len, λ n. ground arith)
set_gates_lem stub (suc rounds) vector entries le len =
    let low : u8 vector ≡ vector = omega arith in
    let here = gate (stub vector) 8 0x8E in
    let (len', rest) =
      set_gates_lem stub rounds (vector + 1) (set entries (u8 vector) here) (omega arith)
        (length-set entries (u8 vector) here ∙ len) in
    (
      len',
      λ n. rest n ∙ elim (ℕ_discrete vector n) [
        | yes e ↦
            let before : (leb (vector + 1) n && ltb n (vector + 1 + rounds)) ≡ false =
              ground arith in
            let after : (leb vector n && ltb n (vector + suc rounds)) ≡ true = ground arith in
            rw (before, after)
              (ap (λ w. get_or (set entries w here) n empty_gate) low
                ∙ ap (λ w. get_or (set entries vector here) w empty_gate) (sym e)
                ∙ get_or-set_self entries vector here empty_gate (omega (arith, len))
                ∙ ap (λ w. gate (stub w) 8 0x8E) e)
        | no ne ↦
            let tests : (leb (vector + 1) n && ltb n (vector + 1 + rounds))
                ≡ (leb vector n && ltb n (vector + suc rounds)) =
              ground arith in
            let apart : get_or (set entries (u8 vector) here) n empty_gate
                ≡ get_or entries n empty_gate =
              get_or-set_ne entries (u8 vector) n here empty_gate (λ e. ne (sym low ∙ e)) in
            ap
              (λ t.
                if t
                then gate (stub n) 8 0x8E
                else get_or (set entries (u8 vector) here) n empty_gate)
              tests
            ∙ ap
                (λ g.
                  if leb vector n && ltb n (vector + suc rounds) then gate (stub n) 8 0x8E else g)
                apart
      ],
    )

-- After `idt_init` the first 48 vectors lead to their stubs through interrupt gates, the system
-- call's vector to its own through a gate that user code may call, and no other vector is present.
pub idt_init_lem :
    (H : Type 0) (stub : ℕ → ℕ) (isr128 n : ℕ)
    → n < 256
    → get_or (idt_init {H = H} stub isr128).idt_entries n empty_gate ≡ (
        if ltb n 48
        then gate (stub n) 8 0x8E
        else if n == 0x80
        then gate isr128 8 0xEE
        else empty_gate)
unfolding idt_init idt_set_gate
idt_init_lem H stub isr128 n hn =
    let cleared = replicate idt_entry_count empty_gate in
    let gates = set_gates stub 48 0 cleared in
    let (len, each) =
      set_gates_lem stub 48 0 cleared (omega arith) (length-replicate idt_entry_count empty_gate) in
    let none_set : get_or cleared n empty_gate ≡ empty_gate =
      get_or-replicate idt_entry_count n empty_gate empty_gate hn in
    elim (ℕ_discrete 0x80 n) [
      | yes e ↦
          let high : ltb n 48 ≡ false = ground arith in
          let here : n == 0x80 ≡ true = ground arith in
          rw (high, here)
            (ap (λ w. get_or (set gates 0x80 (gate isr128 8 0xEE)) w empty_gate) (sym e)
              ∙ get_or-set_self gates 0x80 (gate isr128 8 0xEE) empty_gate (omega (arith, len)))
      | no ne ↦
          let other : n == 0x80 ≡ false = ground arith in
          let tests : (leb 0 n && ltb n (0 + 48)) ≡ ltb n 48 = ground arith in
          get_or-set_ne gates 0x80 n (gate isr128 8 0xEE) empty_gate ne
          ∙ each n
          ∙ ap (λ t. if t then gate (stub n) 8 0x8E else get_or cleared n empty_gate) tests
          ∙ ap (λ g. if ltb n 48 then gate (stub n) 8 0x8E else g) none_set
          ∙ ap
              (λ t.
                if ltb n 48
                then gate (stub n) 8 0x8E
                else if t
                then gate isr128 8 0xEE
                else empty_gate)
              (sym other)
    ]
