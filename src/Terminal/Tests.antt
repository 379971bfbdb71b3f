-- ===== src/Terminal/Tests.antt =====
-- The terminal at concrete states.
use kfs.Base.{◌+◌, ◌≡◌, inl, inr, refl, true, [], ◌∷◌, arith}
use kfs.Terminal.{
  Terminal, vga_entry, terminal_putchar, terminal_write, terminal_initialize, terminal_scroll_up,
  terminal_scroll_down, serial_write_char, snap_back, backspace, terminal_putchar_at, update_cursor,
}
use kfs.Terminal.View.{IsTerminal}
use kfs.Terminal.Text.{
  terminal_putchar-IsTerminal, terminal_write-terminal_initialize, scroll-IsTerminal,
}

-- The cursor behind 30 lines and two characters, with the view three lines back.
abbrev scrolled : Terminal
scrolled = record {
  scroll_buffer = λ i. vga_entry 32 15;
  vga_memory = λ i. vga_entry 32 15;
  terminal_row = 30;
  terminal_column = 2;
  terminal_color = 15;
  scroll_offset = 3;
  cursor = 0;
  serial_enabled = true;
  serial = [];
}

scrolled-IsTerminal : IsTerminal scrolled
scrolled-IsTerminal = record {
  row = omega arith;
  column = omega arith;
  offset = omega arith;
  rest = λ i le small. refl;
  view = λ i small. refl;
}

terminal_putchar-IsTerminal_example : IsTerminal (terminal_putchar scrolled 8)
terminal_putchar-IsTerminal_example =
    terminal_putchar-IsTerminal scrolled 8 scrolled-IsTerminal (inr (inl (omega arith)))

terminal_write-terminal_initialize_example :
    IsTerminal (terminal_write (terminal_initialize scrolled) (72 ∷ 105 ∷ 10 ∷ []))
terminal_write-terminal_initialize_example =
    terminal_write-terminal_initialize scrolled (72 ∷ 105 ∷ 10 ∷ [])
      (omega arith, (omega arith, (omega arith, tt)))

scroll-IsTerminal_example :
    IsTerminal (terminal_scroll_up scrolled 24) × IsTerminal (terminal_scroll_down scrolled 24)
scroll-IsTerminal_example = scroll-IsTerminal scrolled 24 scrolled-IsTerminal

-- The cursor at the start of line 25, which the display shows as its last.
abbrev line_25 : Terminal
line_25 = record scrolled {
  scroll_buffer = λ i. i;
  vga_memory = λ i. i + 80;
  terminal_row = 25;
  terminal_column = 0;
  scroll_offset = 0;
}

-- A backspace goes up to line 24, whose view starts with line 0; the display still shows line 1.
back_leaves_view :
    let q = terminal_putchar line_25 8 in
    (q.terminal_row ≡ 24) × (q.vga_memory 0 ≡ 80) × (q.scroll_buffer 0 ≡ 0)
unfolding terminal_putchar serial_write_char snap_back backspace terminal_putchar_at update_cursor
back_leaves_view = (refl, refl, refl)
