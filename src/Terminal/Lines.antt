-- ===== src/Terminal/Lines.antt =====
-- What each step of a character's output does to the terminal, kernel/src/main.c.
use kfs.Base.{
  ℕ, ◌+◌, ◌-◌, ◌*◌, ◌≤◌, ◌<◌, ◌≡◌, refl, sym, ap, subst, ◌∙◌, Bool, true, false, ltb, ◌==◌,
  if◌then◌else◌, arith, Bool-cases, inl, inr, ==_iff,
}
use kfs.Terminal.{
  Terminal, blank, display_start, scroll_lines, terminal_scroll_buffer, vga_scroll,
  terminal_refresh_display, next_line,
}
use kfs.Terminal.View.{Shows, BlankFrom, IsTerminal, scroll_lines_lem}
use kfs.Terminal.Output.{Live, Live-IsTerminal, refresh-IsTerminal}

-- The choice between two states.
pub choose_true :
    (b : Bool) (x y : Terminal) → b ≡ true → IsTerminal x → IsTerminal (if b then x else y)
choose_true true x y e v = v
choose_true false x y e v = absurd (ground (arith, e))

pub choose_false :
    (b : Bool) (x y : Terminal) → b ≡ false → IsTerminal y → IsTerminal (if b then x else y)
choose_false true x y e v = absurd (ground (arith, e))
choose_false false x y e v = v

ltb_no : (i n : ℕ) → n ≤ i → ltb i n ≡ false
ltb_no i n le = ground (arith, le)

ltb_yes : (i n : ℕ) → i < n → ltb i n ≡ true
ltb_yes i n lt = ground (arith, lt)

scroll_lines-BlankFrom :
    (cells : ℕ → ℕ) (cell : ℕ) → BlankFrom (scroll_lines 200 cells cell) cell (199 * 80 + 0)
scroll_lines-BlankFrom cells cell i le small =
    scroll_lines_lem 200 cells cell i (omega arith)
    ∙ rw
        (ltb_no i ((200 - 1) * 80) (omega (arith, le)), ltb_yes i (200 * 80) (omega (arith, small)))
        refl

moved_start :
    (row : ℕ)
    → (display_start (row + 1) == display_start row) ≡ false
    → (24 ≤ row) × (display_start (row + 1) ≡ display_start row + 1)
moved_start row ne = ground (arith, ne)

above : (i : ℕ) → ltb i ((25 - 1) * 80) ≡ true → i + 80 < 2000
above i upper = ground (arith, upper)

under :
    (row i : ℕ)
    → 24 ≤ row
    → ltb i ((25 - 1) * 80) ≡ false
    → (row + 1) * 80 ≤ i + display_start (row + 1) * 80
under row i low lower = ground (arith, low, lower)

inside : (row i : ℕ) → i < 2000 → row + 1 < 200 → i + display_start (row + 1) * 80 < 16000
inside row i bound fits = ground (arith, bound, fits)

Shows-scroll :
    (vga buffer : ℕ → ℕ) (cell row : ℕ)
    → (display_start (row + 1) == display_start row) ≡ false
    → row + 1 < 200
    → BlankFrom buffer cell ((row + 1) * 80)
    → Shows vga buffer (display_start row)
    → Shows (scroll_lines 25 vga cell) buffer (display_start (row + 1))
Shows-scroll vga buffer cell row ne fits rest view i bound =
    let (low, start) = moved_start row ne in
    let e = scroll_lines_lem 25 vga cell i (omega arith) in
    let at : i + 80 + display_start row * 80 ≡ i + display_start (row + 1) * 80 =
      omega (arith, start) in
    elim (Bool-cases (ltb i ((25 - 1) * 80))) [
      | inl upper ↦ e ∙ rw upper (view (i + 80) (above i upper) ∙ ap buffer at)
      | inr lower ↦
          e
          ∙ rw (lower, ltb_yes i (25 * 80) bound)
              (sym (
                rest (i + display_start (row + 1) * 80) (under row i low lower)
                  (inside row i bound fits)))
    ]

-- The start of a new line in live view, when all from there on is blank.
pub next_line-IsTerminal :
    (t : Terminal) → Live t ((t.terminal_row + 1) * 80) → IsTerminal (next_line t)
unfolding next_line terminal_scroll_buffer vga_scroll
next_line-IsTerminal t l =
    let row = t.terminal_row in
    let below = record t { terminal_column = 0; terminal_row = row + 1 } in
    let fresh = terminal_scroll_buffer below in
    let scrolled = terminal_refresh_display fresh in
    let shifted = vga_scroll below in
    let still = display_start (row + 1) == display_start row in
    let inside = if still then below else shifted in
    elim (Bool-cases (row + 1 == 200)) [
      | inl full ↦ choose_true (row + 1 == 200) scrolled inside full (
          refresh-IsTerminal fresh (omega arith) (omega arith) (omega (arith, l.offset))
            (scroll_lines-BlankFrom t.scroll_buffer (blank t)))
      | inr more ↦
          let fits : row + 1 < 200 = ground (arith, more, l.row) in
          choose_false (row + 1 == 200) scrolled inside more (elim (Bool-cases still) [
            | inl same ↦ choose_true still below shifted same (
                Live-IsTerminal below (omega arith) (record {
                  row = fits;
                  offset = l.offset;
                  rest = λ i le small. l.rest i (omega (arith, le)) small;
                  view =
                      subst (Shows t.vga_memory t.scroll_buffer)
                        (sym ((==_iff (display_start (row + 1)) (display_start row)).0 same))
                        l.view;
                }))
            | inr moved ↦ choose_false still below shifted moved (
                Live-IsTerminal shifted (omega arith) (record {
                  row = fits;
                  offset = l.offset;
                  rest = λ i le small. l.rest i (omega (arith, le)) small;
                  view =
                      Shows-scroll t.vga_memory t.scroll_buffer (blank t) row moved fits l.rest
                        l.view;
                }))
          ])
    ]
