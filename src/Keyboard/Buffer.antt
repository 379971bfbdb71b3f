-- ===== src/Keyboard/Buffer.antt =====
-- The character buffer of kernel/src/keyboard.c against the abstract queue of 255 characters.
use kfs.Base.{
  ℕ, ◌+◌, ◌%◌, ◌<◌, ◌≡◌, ◌∙◌, ap, Option, none, some, List, arith, ◌==◌, Bool-cases, inl, inr,
  length, length-set,
}
use kfs.Base.Circular.{contents, next_index}
use kfs.Fifo
use kfs.Fifo.Refine.{circular_push, circular_pop}
use kfs.Keyboard.{Keyboard, keyboard_buffer_size, keyboard_queue_char, keyboard_try_read_char}

pub record IsValid (k : Keyboard) : Type 0 where
  pub size : length k.keyboard_buffer ≡ keyboard_buffer_size
  pub head : k.keyboard_head < keyboard_buffer_size
  pub tail : k.keyboard_tail < keyboard_buffer_size

-- The characters typed and not yet read, oldest first.
abbrev pub typed : Keyboard → List ℕ
typed k = contents 0 keyboard_buffer_size k.keyboard_buffer k.keyboard_head k.keyboard_tail

-- The push that drops what has no room.
abbrev pub or_keep : List ℕ → Option (List ℕ) → List ℕ
or_keep q none = q
or_keep q (some r) = r

abbrev pub push_or_drop : List ℕ → ℕ → List ℕ
push_or_drop q c = or_keep q (Fifo.push 255 q c)

-- A read of the abstract queue, and of the buffer as that queue.
abbrev pub read_typed : Option (ℕ × Keyboard) → Option (ℕ × List ℕ)
read_typed none = none
read_typed (some (c, k)) = some (c, typed k)

module _ {k : Keyboard} (v : IsValid k) where
  pub keyboard_queue_char-IsValid : (c : ℕ) → IsValid (keyboard_queue_char k c)
  unfolding keyboard_queue_char
  keyboard_queue_char-IsValid c = ground (arith, length-set k.keyboard_buffer k.keyboard_tail c)

  -- A key is added at the end; where the buffer is full it is dropped.
  pub keyboard_queue_char_refines :
      (c : ℕ) → typed (keyboard_queue_char k c) ≡ push_or_drop (typed k) c
  unfolding keyboard_queue_char
  keyboard_queue_char_refines c =
      let index : (k.keyboard_tail + 1) % keyboard_buffer_size
          ≡ next_index keyboard_buffer_size k.keyboard_tail =
        ground arith in
      let push =
        circular_push 0 keyboard_buffer_size k.keyboard_buffer k.keyboard_head k.keyboard_tail
          v.head v.tail c (omega (arith, v.size)) in
      rw index
        (elim (Bool-cases (next_index keyboard_buffer_size k.keyboard_tail == k.keyboard_head)) [
          | inl full ↦ rw full
          | inr room ↦ rw room
        ])
      ∙ ap (or_keep (typed k)) push

  -- A read takes the oldest character, and finds none exactly if none was typed.
  pub keyboard_try_read_char_refines : read_typed (keyboard_try_read_char k) ≡ Fifo.pop (typed k)
  unfolding keyboard_try_read_char
  keyboard_try_read_char_refines =
      let index : (k.keyboard_head + 1) % keyboard_buffer_size
          ≡ next_index keyboard_buffer_size k.keyboard_head =
        ground arith in
      rw
        (
          ← circular_pop 0 keyboard_buffer_size k.keyboard_buffer k.keyboard_head k.keyboard_tail
              v.head v.tail,
          index,
        )
        (elim (Bool-cases (k.keyboard_head == k.keyboard_tail)) [
          | inl empty ↦ rw empty
          | inr more ↦ rw more
        ])

  pub keyboard_try_read_char-IsValid :
      {c : ℕ} {l : Keyboard} → keyboard_try_read_char k ≡ some (c, l) → IsValid l
  unfolding keyboard_try_read_char
  keyboard_try_read_char-IsValid e = ground arith
