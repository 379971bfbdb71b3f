-- ===== src/Terminal/Output.antt =====
-- What a character does to the terminal, kernel/src/main.c.
use kfs.Base.{
  ℕ, ◌+◌, ◌-◌, ◌*◌, ◌≤◌, ◌<◌, ◌≡◌, refl, sym, subst, true, false, ◌&&◌, ltb, leb, ◌==◌, arith,
  Bool-cases, inl, inr,
}
use kfs.Terminal.{
  Terminal, vga_entry, blank, display_start, put, update_cursor, terminal_refresh_display,
  terminal_putchar_at,
}
use kfs.Terminal.View.{Shows, BlankFrom, IsTerminal, refresh-Shows}

-- A terminal in live view, and from where on it is blank.
pub record Live (t : Terminal) (from : ℕ) : Type 0 where
  pub row : t.terminal_row < 200
  pub offset : t.scroll_offset ≡ 0
  pub rest : BlankFrom t.scroll_buffer (blank t) from
  pub view : Shows t.vga_memory t.scroll_buffer (display_start t.terminal_row)

unscrolled : (start offset : ℕ) → offset ≡ 0 → start - offset ≡ start
unscrolled start offset e = omega (arith, e)

pub Live-IsTerminal :
    (t : Terminal)
    → t.terminal_column < 80
    → Live t (t.terminal_row * 80 + t.terminal_column)
    → IsTerminal t
Live-IsTerminal t column l = record {
  row = l.row;
  column = column;
  offset = omega (arith, l.offset);
  rest = l.rest;
  view =
      subst (Shows t.vga_memory t.scroll_buffer)
        (sym (unscrolled (display_start t.terminal_row) t.scroll_offset l.offset)) l.view;
}

pub IsTerminal-Live :
    (t : Terminal)
    → t.scroll_offset ≡ 0
    → IsTerminal t
    → Live t (t.terminal_row * 80 + t.terminal_column)
IsTerminal-Live t e v = record {
  row = v.row;
  offset = e;
  rest = v.rest;
  view =
      subst (Shows t.vga_memory t.scroll_buffer)
        (unscrolled (display_start t.terminal_row) t.scroll_offset e) v.view;
}

pub update_cursor-IsTerminal : (t : Terminal) → IsTerminal t → IsTerminal (update_cursor t)
unfolding update_cursor
update_cursor-IsTerminal t v = record {
  row = v.row;
  column = v.column;
  offset = v.offset;
  rest = v.rest;
  view = v.view;
}

pub refresh-IsTerminal :
    (t : Terminal)
    → t.terminal_row < 200
    → t.terminal_column < 80
    → t.scroll_offset ≤ display_start t.terminal_row
    → BlankFrom t.scroll_buffer (blank t) (t.terminal_row * 80 + t.terminal_column)
    → IsTerminal (terminal_refresh_display t)
unfolding terminal_refresh_display update_cursor
refresh-IsTerminal t row column offset rest = record {
  row = row;
  column = column;
  offset = offset;
  rest = rest;
  view = refresh-Shows t;
}

pub Shows-put :
    (vga buffer : ℕ → ℕ) (cell row column : ℕ)
    → column < 80
    → Shows vga buffer (display_start row)
    → Shows
        (put vga ((row - display_start row) * 80 + column) cell)
        (put buffer (row * 80 + column) cell)
        (display_start row)
Shows-put vga buffer cell row column small view i bound =
    let start = display_start row in
    let at = (row - start) * 80 + column in
    let below : start ≤ row = ground arith in
    elim (Bool-cases (i == at)) [
      | inl e ↦
          let f : (i + start * 80 == row * 80 + column) ≡ true = ground (arith, e, below) in
          rw (e, f) refl
      | inr ne ↦
          let f : (i + start * 80 == row * 80 + column) ≡ false = ground (arith, ne, below) in
          rw (ne, f) (view i bound)
    ]

-- A cell at the cursor, in live view.
pub put_shown :
    (t : Terminal) (c : ℕ)
    → t.scroll_offset ≡ 0
    → let cell = vga_entry c t.terminal_color in
      let row = t.terminal_row in
      let column = t.terminal_column in
      terminal_putchar_at t c t.terminal_color column row ≡ record t {
        scroll_buffer = put t.scroll_buffer (row * 80 + column) cell;
        vga_memory = put t.vga_memory ((row - display_start row) * 80 + column) cell;
      }
unfolding terminal_putchar_at
put_shown t c e =
    let row = t.terminal_row in
    let a : (t.scroll_offset == 0) ≡ true = ground (arith, e) in
    let b : (leb (display_start row) row && ltb row (display_start row + 25)) ≡ true =
      ground arith in
    rw (a, b) refl

pub put_cell :
    (t : Terminal) (c from : ℕ)
    → t.terminal_column < 80
    → t.terminal_row * 80 + t.terminal_column < from
    → Live t from
    → Live (terminal_putchar_at t c t.terminal_color t.terminal_column t.terminal_row) from
put_cell t c from column before l =
    let row = t.terminal_row in
    let at = row * 80 + t.terminal_column in
    let cell = vga_entry c t.terminal_color in
    subst (λ q. Live q from) (sym (put_shown t c l.offset))
      (record {
        row = l.row;
        offset = l.offset;
        rest = λ i le small.
            let ne : (i == at) ≡ false = ground (arith, le, before) in rw ne (l.rest i le small);
        view = Shows-put t.vga_memory t.scroll_buffer cell row t.terminal_column column l.view;
      })
