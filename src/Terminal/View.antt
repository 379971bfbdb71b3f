-- ===== src/Terminal/View.antt =====
-- The state of the terminal between the calls, kernel/src/main.c: the display shows the lines of the
-- buffer that the cursor and the scroll offset say.
use kfs.Base.{
  ℕ, ◌+◌, ◌-◌, ◌*◌, ◌≤◌, ◌<◌, ◌≡◌, refl, ap, ◌∙◌, Bool, true, ◌&&◌, ltb, leb, if◌then◌else◌, arith,
}
use kfs.Terminal.{
  Terminal, vga_width, vga_height, blank, display_start, update_cursor, scroll_lines,
  terminal_refresh_display, shift_cells,
}
use kfs.Terminal.Cells.{copy_cells_lem, fill_cells_lem, shift_cells_lem}

-- The display shows the 25 lines of the buffer from a line on.
abbrev pub Shows : (ℕ → ℕ) → (ℕ → ℕ) → ℕ → Type 0
Shows vga buffer line = (i : ℕ) → i < 2000 → vga i ≡ buffer (i + line * 80)

-- The cells of the buffer from an index on are blank.
abbrev pub BlankFrom : (ℕ → ℕ) → ℕ → ℕ → Type 0
BlankFrom buffer cell at = (i : ℕ) → at ≤ i → i < 16000 → buffer i ≡ cell

-- The cursor is in the buffer, everything behind it is blank, the view is not scrolled past the
-- first line, and the display shows it.
pub record IsTerminal (t : Terminal) : Type 0 where
  pub row : t.terminal_row < 200
  pub column : t.terminal_column < 80
  pub offset : t.scroll_offset ≤ display_start t.terminal_row
  pub rest : BlankFrom t.scroll_buffer (blank t) (t.terminal_row * 80 + t.terminal_column)
  pub view : Shows t.vga_memory t.scroll_buffer (display_start t.terminal_row - t.scroll_offset)

two_loops :
    (a end j x y z : ℕ)
    → end ≡ a + 80
    → (if leb a j && ltb j (a + 80) then z else if leb 0 j && ltb j (0 + a) then x else y)
      ≡ (if ltb j a then x else if ltb j end then z else y)
two_loops a end j x y z e = ground (arith, e)

pub scroll_lines_lem :
    (lines : ℕ) (cells : ℕ → ℕ) (cell j : ℕ)
    → 0 < lines
    → scroll_lines lines cells cell j ≡ (
        if ltb j ((lines - 1) * 80)
        then cells (j + 80)
        else if ltb j (lines * 80)
        then cell
        else cells j)
unfolding scroll_lines
scroll_lines_lem lines cells cell j given =
    let a = (lines - 1) * vga_width in
    fill_cells_lem vga_width (shift_cells a cells vga_width 0) cell a j
    ∙ ap (λ w. if leb a j && ltb j (a + 80) then cell else w)
        (shift_cells_lem a cells vga_width 0 j (omega arith))
    ∙ two_loops a (lines * 80) j (cells (j + 80)) (cells j) cell (omega (arith, given))

pub if_true : (b : Bool) (x y : ℕ) → b ≡ true → (if b then x else y) ≡ x
if_true b x y e = rw e refl

-- After a refresh the display shows what it should.
pub refresh-Shows :
    (t : Terminal)
    → Shows
        (terminal_refresh_display t).vga_memory
        t.scroll_buffer
        (display_start t.terminal_row - t.scroll_offset)
unfolding terminal_refresh_display update_cursor
refresh-Shows t i small =
    let start = display_start t.terminal_row - t.scroll_offset in
    let inside : (leb 0 i && ltb i (0 + 2000)) ≡ true = ground (arith, small) in
    copy_cells_lem (vga_height * vga_width) t.vga_memory t.scroll_buffer (start * vga_width) 0 i
    ∙ if_true (leb 0 i && ltb i (0 + 2000)) (t.scroll_buffer (i + start * 80)) (t.vga_memory i)
        inside
