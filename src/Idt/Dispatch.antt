-- ===== src/Idt/Dispatch.antt =====
-- What an interrupt does, once a handler has been registered or taken away.
use kfs.Base.{
  ℕ, ◌-◌, ◌%◌, ◌<◌, ◌≡◌, ◌≢◌, refl, ap, ◌∙◌, arith, leb, ltb, ◌&&◌, if◌then◌else◌, true, false,
  List, [], ◌∷◌, ◌++◌, Option, none, some, length, get_or, set, sym, Bool-cases, inl, inr,
  get_or-set_self, get_or-set_ne,
}
use kfs.Idt.{
  Idt, Effect, outb, handle, panic, serve_vector, idt_register_handler, idt_unregister_handler,
  idt_handle_interrupt, pic_send_eoi,
}

module _ {H : Type 0} where
  -- The end of interrupt that each vector asks for: none outside 32 to 47, the first controller from
  -- 32 on, and from 40 on the second one before it.
  abbrev pub end_of_interrupt : ℕ → List (Effect H)
  end_of_interrupt vector =
      if ltb vector 32
      then []
      else if ltb vector 40
      then outb 0x20 0x20 ∷ []
      else if ltb vector 48
      then outb 0xA0 0x20 ∷ outb 0x20 0x20 ∷ []
      else []

  append_empty : (xs : List (Effect H)) → xs ++ [] ≡ xs
  append_empty [] = refl
  append_empty (x ∷ xs) = ap (λ t. x ∷ t) (append_empty xs)

  finish :
      (served : List (Effect H)) (vector : ℕ)
      → (if leb 32 vector && ltb vector 48 then served ++ pic_send_eoi (vector - 32) else served)
        ≡ served ++ end_of_interrupt vector
  unfolding pic_send_eoi
  finish served vector = elim (Bool-cases (ltb vector 32)) [
    | inl exception ↦
        let outside : (leb 32 vector && ltb vector 48) ≡ false = ground arith in
        rw (exception, outside) (sym (append_empty served))
    | inr above ↦ elim (Bool-cases (ltb vector 40)) [
      | inl first ↦
          let inside : (leb 32 vector && ltb vector 48) ≡ true = ground arith in
          let master : leb 8 (vector - 32) ≡ false = ground arith in
          rw (above, first, inside, master) refl
      | inr second ↦ elim (Bool-cases (ltb vector 48)) [
        | inl slave_line ↦
            let inside : leb 32 vector ≡ true = ground arith in
            let slave : leb 8 (vector - 32) ≡ true = ground arith in
            rw (above, second, slave_line, inside, slave) refl
        | inr beyond ↦
            let outside : (leb 32 vector && ltb vector 48) ≡ false = ground arith in
            rw (outside, above, second, beyond) (sym (append_empty served))
      ]
    ]
  ]

  handle_interrupt_lem :
      (t : Idt H) (int_no : ℕ)
      → idt_handle_interrupt t (some int_no)
        ≡ serve_vector (get_or t.interrupt_handlers (int_no % 256) none) (int_no % 256)
          ++ end_of_interrupt (int_no % 256)
  unfolding idt_handle_interrupt
  handle_interrupt_lem t int_no =
      finish (serve_vector (get_or t.interrupt_handlers (int_no % 256) none) (int_no % 256))
        (int_no % 256)

  -- With a table of 256 handlers: an interrupt whose vector has just got a handler runs it and ends
  -- the interrupt at the controllers that raised it; one whose handler was just taken away panics if
  -- it is an exception, and else only ends the interrupt. All other vectors do what they did.
  pub idt_handle_interrupt_lem :
      (t : Idt H) (vector int_no : ℕ) (handler : H)
      → length t.interrupt_handlers ≡ 256
      → vector < 256
      → (int_no % 256 ≡ vector
          → (idt_handle_interrupt (idt_register_handler t vector (some handler)) (some int_no)
              ≡ handle handler vector ∷ end_of_interrupt vector)
            × (idt_handle_interrupt (idt_unregister_handler t vector) (some int_no)
                ≡ (if ltb vector 32 then panic vector ∷ [] else end_of_interrupt vector)))
        × (int_no % 256 ≢ vector
            → (idt_handle_interrupt (idt_register_handler t vector (some handler)) (some int_no)
                ≡ idt_handle_interrupt t (some int_no))
              × (idt_handle_interrupt (idt_unregister_handler t vector) (some int_no)
                  ≡ idt_handle_interrupt t (some int_no)))
  unfolding idt_register_handler idt_unregister_handler
  idt_handle_interrupt_lem t vector int_no handler len hv =
      let hs = t.interrupt_handlers in
      let n = int_no % 256 in
      let found : (o : Option H) → vector ≡ n → get_or (set hs vector o) n none ≡ o = λ o e.
        ap (λ w. get_or (set hs vector o) w none) (sym e)
        ∙ get_or-set_self hs vector o none (omega (arith, len)) in
      let kept : (o : Option H) → vector ≢ n → get_or (set hs vector o) n none ≡ get_or hs n none =
        λ o ne. get_or-set_ne hs vector n o none ne in
      let run : Option H → ℕ → List (Effect H) = λ o w. serve_vector o w ++ end_of_interrupt w in
      (
        λ e. (
          handle_interrupt_lem (idt_register_handler t vector (some handler)) int_no
              ∙ ap (λ o. run o n) (found (some handler) (sym e))
              ∙ ap (run (some handler)) e,
          handle_interrupt_lem (idt_unregister_handler t vector) int_no
              ∙ ap (λ o. run o n) (found none (sym e))
              ∙ ap (run none) e
              ∙ elim (Bool-cases (ltb vector 32)) [
                | inl exception ↦ rw exception refl
                | inr other ↦ rw other refl
              ],
        ),
        λ ne. (
          handle_interrupt_lem (idt_register_handler t vector (some handler)) int_no
              ∙ ap (λ o. run o n) (kept (some handler) (λ e. ne (sym e)))
              ∙ sym (handle_interrupt_lem t int_no),
          handle_interrupt_lem (idt_unregister_handler t vector) int_no
              ∙ ap (λ o. run o n) (kept none (λ e. ne (sym e)))
              ∙ sym (handle_interrupt_lem t int_no),
        ),
      )
