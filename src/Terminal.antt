-- ===== src/Terminal.antt =====
-- The terminal of kernel/src/main.c: a buffer of 200 lines, of which the display shows 25, and the
-- bytes that go to the serial port with it, kernel/src/serial.c. A cell has the index line * 80 +
-- column, and so a loop over the lines and their columns is one over the indices.
pub mod Cells
pub mod View
pub mod Output
pub mod Lines
pub mod Write
pub mod Text
mod Tests
use kfs.Base.{
  ℕ, zero, suc, ◌+◌, ◌-◌, ◌*◌, ◌/◌, ◌%◌, Bool, true, false, not, ◌&&◌, List, [], ◌∷◌, ◌++◌, ltb,
  leb, ◌==◌, if◌then◌else◌, add32,
}

-- The static variables, the memory of the display, the position in the cursor's registers, and what
-- the serial port has sent.
pub record Terminal : Type 0 where
  pub scroll_buffer : ℕ → ℕ
  pub vga_memory : ℕ → ℕ
  pub terminal_row : ℕ
  pub terminal_column : ℕ
  pub terminal_color : ℕ
  pub scroll_offset : ℕ
  pub cursor : ℕ
  pub serial_enabled : Bool
  pub serial : List ℕ

-- VGA_WIDTH, VGA_HEIGHT and SCROLLBACK_LINES
abbrev pub vga_width : ℕ
vga_width = 80

abbrev pub vga_height : ℕ
vga_height = 25

abbrev pub scrollback_lines : ℕ
scrollback_lines = 200

abbrev pub vga_entry_color : ℕ → ℕ → ℕ
vga_entry_color fg bg = (fg + bg * 16) % 256

-- Character and colour do not share a bit.
abbrev pub vga_entry : ℕ → ℕ → ℕ
vga_entry c color = c % 256 + color % 256 * 256

abbrev pub blank : Terminal → ℕ
blank t = vga_entry 32 t.terminal_color

-- The first line of the live view.
abbrev pub display_start : ℕ → ℕ
display_start row = if leb vga_height row then row - vga_height + 1 else 0

unfoldable pub update_cursor : Terminal → Terminal
update_cursor t =
    let live = (t.terminal_row - display_start t.terminal_row) * vga_width + t.terminal_column in
    let pos = if not (t.scroll_offset == 0) then vga_height * vga_width else live in
    record t { cursor = pos % 65536 }

abbrev pub put : (ℕ → ℕ) → ℕ → ℕ → ℕ → ℕ
put cells at cell i = if i == at then cell else cells i

-- `cells[i] = source[i + offset]` for the cells from `i` on, with the rounds left.
unfoldable pub copy_cells : ℕ → (ℕ → ℕ) → (ℕ → ℕ) → ℕ → ℕ → ℕ → ℕ
copy_cells zero cells source offset i = cells
copy_cells (suc rounds) cells source offset i =
    copy_cells rounds (put cells i (source (i + offset))) source offset (i + 1)

-- The same in one buffer, where a cell is read after those before it are written.
unfoldable pub shift_cells : ℕ → (ℕ → ℕ) → ℕ → ℕ → ℕ → ℕ
shift_cells zero cells offset i = cells
shift_cells (suc rounds) cells offset i =
    shift_cells rounds (put cells i (cells (i + offset))) offset (i + 1)

unfoldable pub fill_cells : ℕ → (ℕ → ℕ) → ℕ → ℕ → ℕ → ℕ
fill_cells zero cells cell i = cells
fill_cells (suc rounds) cells cell i = fill_cells rounds (put cells i cell) cell (i + 1)

-- The lines but the first move up, and the last one is blank.
unfoldable pub scroll_lines : ℕ → (ℕ → ℕ) → ℕ → ℕ → ℕ
unfolding shift_cells fill_cells
scroll_lines lines cells cell =
    fill_cells vga_width (shift_cells ((lines - 1) * vga_width) cells vga_width 0) cell
      ((lines - 1) * vga_width)

unfoldable pub terminal_scroll_buffer : Terminal → Terminal
unfolding scroll_lines
terminal_scroll_buffer t = record t {
  scroll_buffer = scroll_lines scrollback_lines t.scroll_buffer (blank t);
  terminal_row = scrollback_lines - 1;
}

unfoldable pub vga_scroll : Terminal → Terminal
unfolding scroll_lines
vga_scroll t = record t { vga_memory = scroll_lines vga_height t.vga_memory (blank t) }

unfoldable pub terminal_refresh_display : Terminal → Terminal
unfolding copy_cells update_cursor
terminal_refresh_display t =
    let start = display_start t.terminal_row - t.scroll_offset in
    update_cursor (record t {
      vga_memory =
          copy_cells (vga_height * vga_width) t.vga_memory t.scroll_buffer (start * vga_width) 0;
    })

unfoldable pub terminal_initialize : Terminal → Terminal
unfolding fill_cells update_cursor
terminal_initialize t =
    let cell = vga_entry 32 (vga_entry_color 15 0) in
    update_cursor (record t {
      terminal_row = 0;
      terminal_column = 0;
      scroll_offset = 0;
      terminal_color = vga_entry_color 15 0;
      scroll_buffer = fill_cells (scrollback_lines * vga_width) t.scroll_buffer cell 0;
      vga_memory = fill_cells (vga_height * vga_width) t.vga_memory cell 0;
    })

abbrev show_cell : Terminal → ℕ → ℕ → ℕ → ℕ → ℕ
show_cell t cell x y =
    let start = display_start t.terminal_row in
    if (t.scroll_offset == 0) && (leb start y && ltb y (start + vga_height))
    then put t.vga_memory ((y - start) * vga_width + x) cell
    else t.vga_memory

unfoldable pub terminal_putchar_at : Terminal → ℕ → ℕ → ℕ → ℕ → Terminal
terminal_putchar_at t c color x y =
    let cell = vga_entry c color in
    record t {
      scroll_buffer = put t.scroll_buffer (y * vga_width + x) cell;
      vga_memory = show_cell t cell x y;
    }

-- The bytes for a character.
abbrev pub serial_bytes : ℕ → List ℕ
serial_bytes c = if c == 10 then 13 ∷ 10 ∷ [] else if c == 8 then 8 ∷ 32 ∷ 8 ∷ [] else c ∷ []

unfoldable pub serial_write_char : Terminal → ℕ → Terminal
serial_write_char t c =
    if t.serial_enabled then record t { serial = t.serial ++ serial_bytes c } else t

-- The view snaps back on any output.
unfoldable pub snap_back : Terminal → Terminal
unfolding terminal_refresh_display
snap_back t =
    if t.scroll_offset == 0 then t else terminal_refresh_display (record t { scroll_offset = 0 })

abbrev back_column : Terminal → Terminal
back_column t =
    let up = record t { terminal_row = t.terminal_row - 1; terminal_column = vga_width - 1 } in
    if ltb 0 t.terminal_column
    then record t { terminal_column = t.terminal_column - 1 }
    else if ltb 0 t.terminal_row
    then up
    else t

unfoldable pub backspace : Terminal → Terminal
unfolding terminal_putchar_at
backspace t =
    let b = back_column t in
    terminal_putchar_at b 32 b.terminal_color b.terminal_column b.terminal_row

-- The start of a new line.
unfoldable pub next_line : Terminal → Terminal
unfolding terminal_scroll_buffer terminal_refresh_display vga_scroll
next_line t =
    let below = record t { terminal_column = 0; terminal_row = t.terminal_row + 1 } in
    if below.terminal_row == scrollback_lines
    then terminal_refresh_display (terminal_scroll_buffer below)
    else if display_start below.terminal_row == display_start t.terminal_row
    then below
    else vga_scroll below

unfoldable pub advance : Terminal → Terminal
unfolding next_line
advance t =
    if t.terminal_column + 1 == vga_width
    then next_line t
    else record t { terminal_column = t.terminal_column + 1 }

unfoldable pub put_here : Terminal → ℕ → Terminal
unfolding terminal_putchar_at
put_here t c = terminal_putchar_at t c t.terminal_color t.terminal_column t.terminal_row

unfoldable pub terminal_putchar : Terminal → ℕ → Terminal
unfolding serial_write_char snap_back backspace advance put_here
terminal_putchar t c =
    let live = snap_back (serial_write_char t c) in
    update_cursor (
      if c == 8
      then backspace live
      else if c == 10
      then next_line live
      else advance (put_here live c))

unfoldable pub terminal_write : Terminal → List ℕ → Terminal
unfolding terminal_putchar
terminal_write t [] = t
terminal_write t (c ∷ text) = terminal_write (terminal_putchar t c) text

unfoldable pub terminal_scroll_up : Terminal → ℕ → Terminal
unfolding terminal_refresh_display
terminal_scroll_up t lines =
    let max_offset = display_start t.terminal_row in
    let scrolled = add32 t.scroll_offset lines in
    terminal_refresh_display
      (record t { scroll_offset = if ltb max_offset scrolled then max_offset else scrolled })

unfoldable pub terminal_scroll_down : Terminal → ℕ → Terminal
unfolding terminal_refresh_display
terminal_scroll_down t lines =
    terminal_refresh_display (record t {
      scroll_offset = if leb lines t.scroll_offset then t.scroll_offset - lines else 0;
    })
