-- ===== src/Terminal/Text.antt =====
-- Text on the terminal, and the view of older lines, kernel/src/main.c.
use kfs.Base.{
  ℕ, ◌+◌, ◌-◌, ◌*◌, ◌≤◌, ◌<◌, ◌≡◌, ◌≢◌, ◌⊎◌, refl, sym, ◌∙◌, Bool, true, false, ◌&&◌, ltb, leb,
  ◌==◌, if◌then◌else◌, arith, Bool-cases, inl, inr, ==_iff, List, [], ◌∷◌, ◌++◌, All, add32,
}
use kfs.Terminal.{
  Terminal, vga_width, vga_height, scrollback_lines, vga_entry, display_start, update_cursor,
  terminal_refresh_display, next_line, advance, put_here, backspace, snap_back, serial_bytes,
  serial_write_char, terminal_putchar, terminal_write, terminal_scroll_up, terminal_scroll_down,
  fill_cells, terminal_initialize, vga_entry_color,
}
use kfs.Terminal.Cells.{fill_cells_lem}
use kfs.Terminal.View.{IsTerminal, if_true}
use kfs.Terminal.Output.{IsTerminal-Live, update_cursor-IsTerminal, refresh-IsTerminal}
use kfs.Terminal.Lines.{next_line-IsTerminal}
use kfs.Terminal.Write.{pick_true, pick_false, weaken, shown, backspace-IsTerminal}

-- In order, with the cursor where it was.
abbrev Kept : Terminal → Terminal → Type 0
Kept t q =
    IsTerminal q × (q.terminal_row ≡ t.terminal_row) × (q.terminal_column ≡ t.terminal_column)

serial_write_char-IsTerminal :
    (t : Terminal) (c : ℕ) → IsTerminal t → Kept t (serial_write_char t c)
unfolding serial_write_char
serial_write_char-IsTerminal t c v =
    let sent = record t { serial = t.serial ++ serial_bytes c } in
    let kept : Kept t sent = (
      record { row = v.row; column = v.column; offset = v.offset; rest = v.rest; view = v.view },
      refl,
      refl,
    ) in
    elim t.serial_enabled as (λ b. Kept t (if b then sent else t)) [
      | true ↦ kept
      | false ↦ (v, refl, refl)
    ]

-- The view is live, and the cursor where it was.
abbrev Snapped : Terminal → Terminal → Type 0
Snapped t q =
    IsTerminal q
    × (q.scroll_offset ≡ 0)
    × (q.terminal_row ≡ t.terminal_row)
    × (q.terminal_column ≡ t.terminal_column)

snap_choice :
    (t x y : Terminal) (b : Bool)
    → ((b ≡ true) → Snapped t x)
    → ((b ≡ false) → Snapped t y)
    → Snapped t (if b then x else y)
snap_choice t x y true f g = f refl
snap_choice t x y false f g = g refl

snap_back-Snapped : (t : Terminal) → IsTerminal t → Snapped t (snap_back t)
unfolding snap_back terminal_refresh_display update_cursor
snap_back-Snapped t v =
    let live = record t { scroll_offset = 0 } in
    snap_choice t t (terminal_refresh_display live) (t.scroll_offset == 0)
      (λ e. (v, (==_iff t.scroll_offset 0).0 e, refl, refl))
      (λ e. (refresh-IsTerminal live v.row v.column (omega arith) v.rest, refl, refl, refl))

erasable :
    (c : ℕ) (t : Terminal)
    → (c ≢ 8) ⊎ ((0 < t.terminal_column) ⊎ (t.terminal_row < 25))
    → (c == 8) ≡ true
    → (0 < t.terminal_column) ⊎ (t.terminal_row < 25)
erasable c t (inl other) e = absurd (other ((==_iff c 8).0 e))
erasable c t (inr can) e = can

moved :
    {c row column row' column' : ℕ}
    → (c ≢ 8) ⊎ ((0 < column) ⊎ (row < 25))
    → row' ≡ row
    → column' ≡ column
    → (c ≢ 8) ⊎ ((0 < column') ⊎ (row' < 25))
moved (inl other) e f = inl other
moved (inr (inl right)) e f = inr (inl (omega (arith, f, right)))
moved (inr (inr high)) e f = inr (inr (omega (arith, e, high)))

drawn :
    (t : Terminal) (c : ℕ)
    → t.scroll_offset ≡ 0
    → IsTerminal t
    → (c ≢ 8) ⊎ ((0 < t.terminal_column) ⊎ (t.terminal_row < 25))
    → IsTerminal
        (if c == 8 then backspace t else if c == 10 then next_line t else advance (put_here t c))
drawn t c e v can =
    let l = IsTerminal-Live t e v in
    let text = if c == 10 then next_line t else advance (put_here t c) in
    elim (Bool-cases (c == 8)) [
      | inl back ↦
          pick_true IsTerminal (c == 8) (backspace t) text back
            (backspace-IsTerminal t e v (erasable c t can back))
      | inr plain ↦
          pick_false IsTerminal (c == 8) (backspace t) text plain (elim (Bool-cases (c == 10)) [
            | inl line ↦
                pick_true IsTerminal (c == 10) (next_line t) (advance (put_here t c)) line (
                  next_line-IsTerminal t (
                    weaken t (t.terminal_row * 80 + t.terminal_column) ((t.terminal_row + 1) * 80)
                      (omega (arith, v.column)) l))
            | inr other ↦
                pick_false IsTerminal (c == 10) (next_line t) (advance (put_here t c)) other
                  (shown t c v e)
          ])
    ]

-- A character keeps the terminal in order, whatever part of the buffer is in view: the display
-- shows the lines that end with the cursor's. A backspace at the start of a line is asked to be in
-- the first 25 lines.
pub terminal_putchar-IsTerminal :
    (t : Terminal) (c : ℕ)
    → IsTerminal t
    → (c ≢ 8) ⊎ ((0 < t.terminal_column) ⊎ (t.terminal_row < 25))
    → IsTerminal (terminal_putchar t c)
unfolding terminal_putchar
terminal_putchar-IsTerminal t c v can =
    let (sent, row, column) = serial_write_char-IsTerminal t c v in
    let (live, offset, row', column') = snap_back-Snapped (serial_write_char t c) sent in
    let q = snap_back (serial_write_char t c) in
    update_cursor-IsTerminal _ (drawn q c offset live (moved can (row' ∙ row) (column' ∙ column)))

-- A text without backspaces keeps the terminal in order: the cursor is in the buffer, all behind it
-- is blank, and the display shows the lines of the buffer that the cursor and the offset say.
pub terminal_write-IsTerminal :
    (text : List ℕ) (t : Terminal)
    → IsTerminal t
    → All (λ c. c ≢ 8) text
    → IsTerminal (terminal_write t text)
unfolding terminal_write
terminal_write-IsTerminal [] t v plain = v
terminal_write-IsTerminal (c ∷ text) t v (here, plain) =
    terminal_write-IsTerminal text (terminal_putchar t c)
      (terminal_putchar-IsTerminal t c v (inl here)) plain

min_start :
    (start offset lines : ℕ)
    → (if ltb start (add32 offset lines) then start else add32 offset lines) ≤ start
min_start start offset lines = ground arith

less :
    (start offset lines : ℕ)
    → offset ≤ start
    → (if leb lines offset then offset - lines else 0) ≤ start
less start offset lines le = ground (arith, le)

-- Scrolling the view back and forth by any number of lines keeps the terminal in order: the view
-- stays in the buffer, and the display shows it.
pub scroll-IsTerminal :
    (t : Terminal) (lines : ℕ)
    → IsTerminal t
    → IsTerminal (terminal_scroll_up t lines) × IsTerminal (terminal_scroll_down t lines)
unfolding terminal_scroll_up terminal_scroll_down
scroll-IsTerminal t lines v =
    let start = display_start t.terminal_row in
    let far = add32 t.scroll_offset lines in
    let up = record t { scroll_offset = if ltb start far then start else far } in
    let down = record t {
      scroll_offset = if leb lines t.scroll_offset then t.scroll_offset - lines else 0;
    } in
    (
      refresh-IsTerminal up v.row v.column (min_start start t.scroll_offset lines) v.rest,
      refresh-IsTerminal down v.row v.column (less start t.scroll_offset lines v.offset) v.rest,
    )

blank_filled :
    (rounds : ℕ) (cells : ℕ → ℕ) (cell i : ℕ) → i < rounds → fill_cells rounds cells cell 0 i ≡ cell
blank_filled rounds cells cell i small =
    let e = fill_cells_lem rounds cells cell 0 i in
    let c : (leb 0 i && ltb i (0 + rounds)) ≡ true = ground (arith, small) in
    e ∙ if_true (leb 0 i && ltb i (0 + rounds)) cell (cells i) c

terminal_initialize-IsTerminal : (t : Terminal) → IsTerminal (terminal_initialize t)
unfolding terminal_initialize update_cursor
terminal_initialize-IsTerminal t =
    let cell = vga_entry 32 (vga_entry_color 15 0) in
    record {
      row = omega arith;
      column = omega arith;
      offset = omega arith;
      rest = λ i le small. blank_filled (scrollback_lines * vga_width) t.scroll_buffer cell i small;
      view = λ i small.
          blank_filled (vga_height * vga_width) t.vga_memory cell i small
          ∙ sym (
              blank_filled (scrollback_lines * vga_width) t.scroll_buffer cell (i + 0 * 80)
                (omega (arith, small)));
    }

-- After `terminal_initialize`, whatever it finds, and any text without backspaces, the cursor is in
-- the buffer, all behind it is blank, and the display shows the 25 lines of the buffer that the
-- cursor and the offset say.
pub terminal_write-terminal_initialize :
    (t : Terminal) (text : List ℕ)
    → All (λ c. c ≢ 8) text
    → IsTerminal (terminal_write (terminal_initialize t) text)
terminal_write-terminal_initialize t text plain =
    terminal_write-IsTerminal text (terminal_initialize t) (terminal_initialize-IsTerminal t) plain
