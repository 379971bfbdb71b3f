-- ===== src/Shell/Tests.antt =====
-- Tests of the shell's string helpers.
use kfs.Base.{ℕ, true, false, some, ◌≡◌, refl, arith, List, [], ◌∷◌, replicate, length-replicate}
use kfs.Shell.{
  strncmp, parse_uint, parse_digits, parse_hex, parse_hex_digits, shell_print_dec, dec_loop,
}
use kfs.Shell.Input.{serial, keyboard, accepted, read_command}
use kfs.Shell.Line.{typed, drop_last, text_of, read_command_lem}
use kfs.Terminal.{Terminal}
use kfs.Shell.Numbers.{parse_uint-shell_print_dec}

-- "free" and "fred".
free_word : List ℕ
free_word = 102 ∷ 114 ∷ 101 ∷ 101 ∷ []

fred_word : List ℕ
fred_word = 102 ∷ 114 ∷ 101 ∷ 100 ∷ []

-- "307"
prints_307 : shell_print_dec (replicate 12 7) 307 ≡ 51 ∷ 48 ∷ 55 ∷ []
unfolding shell_print_dec dec_loop
prints_307 = refl

-- "12x" stops at the letter.
stops : parse_uint (49 ∷ 50 ∷ 120 ∷ []) ≡ 12
unfolding parse_uint parse_digits
stops = refl

-- "0xBeEf"
mixed_case : parse_hex (48 ∷ 120 ∷ 66 ∷ 101 ∷ 69 ∷ 102 ∷ []) ≡ 0xBEEF
unfolding parse_hex parse_hex_digits
mixed_case = refl

-- They agree in three bytes.
same_start : strncmp free_word fred_word 3 ≡ 0
unfolding strncmp free_word fred_word
same_start = refl

parse_uint-shell_print_dec_example :
    parse_uint (shell_print_dec (replicate 12 7) 4294967295) ≡ 4294967295
parse_uint-shell_print_dec_example =
    parse_uint-shell_print_dec (replicate 12 7) 4294967295 (length-replicate {A = ℕ} 12 7)
      (omega arith)

abbrev blank_screen : Terminal
blank_screen = record {
  scroll_buffer = λ i. 0;
  vga_memory = λ i. 0;
  terminal_row = 0;
  terminal_column = 0;
  terminal_color = 15;
  scroll_offset = 0;
  cursor = 0;
  serial_enabled = true;
  serial = [];
}

-- "l", "x", a backspace, "s" and the end of the line.
read_command_lem_example :
    let events =
      keyboard 108 false ∷ keyboard 120 false ∷ serial 127 ∷ serial 115 ∷ serial 13 ∷ [] in
    text_of
      (read_command events (record { buffer = replicate 256 7; pos = 0; terminal = blank_screen }))
    ≡ typed events []
unfolding accepted
read_command_lem_example =
    let events =
      keyboard 108 false ∷ keyboard 120 false ∷ serial 127 ∷ serial 115 ∷ serial 13 ∷ [] in
    read_command_lem events (replicate 256 7) blank_screen (length-replicate {A = ℕ} 256 7)
      (omega arith, (omega arith, (omega arith, (omega arith, (omega arith, tt)))))

spells_ls :
    typed (keyboard 108 false ∷ keyboard 120 false ∷ serial 127 ∷ serial 115 ∷ serial 13 ∷ []) []
    ≡ some (108 ∷ 115 ∷ [])
unfolding typed accepted drop_last
spells_ls = refl
