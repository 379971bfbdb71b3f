-- ===== src/Terminal/Write.antt =====
-- Characters and text on the terminal, and its view of older lines, kernel/src/main.c.
use kfs.Base.{
  ℕ, ◌+◌, ◌-◌, ◌*◌, ◌≤◌, ◌<◌, ◌≡◌, ◌⊎◌, refl, sym, subst, Bool, true, false, ltb, ◌==◌,
  if◌then◌else◌, arith, Bool-cases, inl, inr,
}
use kfs.Terminal.{
  Terminal, blank, display_start, put, next_line, advance, put_here, terminal_putchar_at, backspace,
}
use kfs.Terminal.View.{Shows, IsTerminal}
use kfs.Terminal.Output.{Live, Live-IsTerminal, IsTerminal-Live, Shows-put, put_shown, put_cell}
use kfs.Terminal.Lines.{next_line-IsTerminal}

pub pick_true :
    (P : Terminal → Type 0) (b : Bool) (x y : Terminal) → b ≡ true → P x → P (if b then x else y)
pick_true P true x y e v = v
pick_true P false x y e v = absurd (ground (arith, e))

pub pick_false :
    (P : Terminal → Type 0) (b : Bool) (x y : Terminal) → b ≡ false → P y → P (if b then x else y)
pick_false P true x y e v = absurd (ground (arith, e))
pick_false P false x y e v = v

pub weaken : (t : Terminal) (a b : ℕ) → a ≤ b → Live t a → Live t b
weaken t a b le l = record {
  row = l.row;
  offset = l.offset;
  rest = λ i more small. l.rest i (omega (arith, le, more)) small;
  view = l.view;
}

-- Behind the cell at the cursor.
abbrev behind : Terminal → ℕ
behind t = t.terminal_row * 80 + t.terminal_column + 1

advance-IsTerminal :
    (t : Terminal) → t.terminal_column < 80 → Live t (behind t) → IsTerminal (advance t)
unfolding advance
advance-IsTerminal t column l =
    let right = record t { terminal_column = t.terminal_column + 1 } in
    elim (Bool-cases (t.terminal_column + 1 == 80)) [
      | inl last ↦ pick_true IsTerminal (t.terminal_column + 1 == 80) (next_line t) right last (
          next_line-IsTerminal t
            (weaken t (behind t) ((t.terminal_row + 1) * 80) (ground (arith, last)) l))
      | inr more ↦ pick_false IsTerminal (t.terminal_column + 1 == 80) (next_line t) right more (
          Live-IsTerminal right (ground (arith, more, column)) (record {
            row = l.row;
            offset = l.offset;
            rest = λ i le small. l.rest i (omega (arith, le)) small;
            view = l.view;
          }))
    ]

put_here-Live :
    (t : Terminal) (c : ℕ)
    → t.terminal_column < 80
    → Live t (t.terminal_row * 80 + t.terminal_column)
    → Live (put_here t c) (behind t)
unfolding put_here
put_here-Live t c column l =
    put_cell t c (behind t) column (omega arith)
      (weaken t (t.terminal_row * 80 + t.terminal_column) (behind t) (omega arith) l)

pub shown :
    (t : Terminal) (c : ℕ)
    → IsTerminal t
    → t.scroll_offset ≡ 0
    → IsTerminal (advance (put_here t c))
unfolding put_here terminal_putchar_at
shown t c v e =
    advance-IsTerminal (put_here t c) v.column (put_here-Live t c v.column (IsTerminal-Live t e v))

-- A blank at the cursor, when all behind it is blank.
clear_cell :
    (t : Terminal)
    → t.terminal_column < 80
    → Live t (behind t)
    → IsTerminal (terminal_putchar_at t 32 t.terminal_color t.terminal_column t.terminal_row)
clear_cell t column l =
    let row = t.terminal_row in
    let at = row * 80 + t.terminal_column in
    let cell = blank t in
    let kept : Terminal = record t {
      scroll_buffer = put t.scroll_buffer at cell;
      vga_memory = put t.vga_memory ((row - display_start row) * 80 + t.terminal_column) cell;
    } in
    subst IsTerminal (sym (put_shown t 32 l.offset)) (
      Live-IsTerminal kept column (record {
        row = l.row;
        offset = l.offset;
        rest = λ i le small. elim (Bool-cases (i == at)) [
          | inl here ↦ rw here refl
          | inr on ↦ rw on (l.rest i (ground (arith, le, on)) small)
        ];
        view = Shows-put t.vga_memory t.scroll_buffer cell row t.terminal_column column l.view;
      }))

line_above :
    (row column : ℕ)
    → ltb 0 row ≡ true
    → ltb 0 column ≡ false
    → (0 < column) ⊎ (row < 25)
    → display_start row ≡ display_start (row - 1)
line_above row column lower first (inl right) = absurd (ground (arith, first, right))
line_above row column lower first (inr high) = ground (arith, high)

-- A state whose cursor is on the cell to erase.
abbrev ToErase : Terminal → Type 0
ToErase t = (t.terminal_column < 80) × Live t (behind t)

pub backspace-IsTerminal :
    (t : Terminal)
    → t.scroll_offset ≡ 0
    → IsTerminal t
    → (0 < t.terminal_column) ⊎ (t.terminal_row < 25)
    → IsTerminal (backspace t)
unfolding backspace
backspace-IsTerminal t e v can =
    let l = IsTerminal-Live t e v in
    let row = t.terminal_row in
    let column = t.terminal_column in
    let left = record t { terminal_column = column - 1 } in
    let up = record t { terminal_row = row - 1; terminal_column = 79 } in
    let above = if ltb 0 row then up else t in
    let b = if ltb 0 column then left else above in
    let erase : ToErase b = elim (Bool-cases (ltb 0 column)) [
      | inl right ↦ pick_true ToErase (ltb 0 column) left above right (
        omega (arith, v.column),
        record {
          row = l.row;
          offset = e;
          rest = λ i le small. l.rest i (ground (arith, right, le)) small;
          view = l.view;
        },
      )
      | inr first ↦
          pick_false ToErase (ltb 0 column) left above first (elim (Bool-cases (ltb 0 row)) [
            | inl lower ↦
                let start = line_above row column lower first can in
                pick_true ToErase (ltb 0 row) up t lower (
                  omega arith,
                  record {
                    row = omega (arith, l.row);
                    offset = e;
                    rest = λ i le small. l.rest i (ground (arith, first, lower, le)) small;
                    view = subst (Shows t.vga_memory t.scroll_buffer) start l.view;
                  },
                )
            | inr top ↦
                pick_false ToErase (ltb 0 row) up t top
                  (v.column, weaken t (row * 80 + column) (behind t) (omega arith) l)
          ])
    ] in
    clear_cell b erase.0 erase.1
