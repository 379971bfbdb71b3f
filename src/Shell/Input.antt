-- ===== src/Shell/Input.antt =====
-- The reading of a command, kernel/src/shell.c: the characters that arrive, their echo, and the
-- buffer of 256 bytes.
use kfs.Base.{
  ℕ, ◌+◌, ◌-◌, Bool, ◌&&◌, ◌||◌, List, [], ◌∷◌, Option, none, some, ltb, leb, ◌==◌, if◌then◌else◌,
  set,
}
use kfs.Shell.{c_string}
use kfs.Terminal.{Terminal, terminal_putchar, terminal_scroll_up, terminal_scroll_down}

-- A character of the serial port, or one of the keyboard with the shift key's state.
pub data Input : Type 0 where
  serial : ℕ → Input
  keyboard : ℕ → Bool → Input

abbrev pub shell_buffer_size : ℕ
shell_buffer_size = 256

-- KEY_PAGE_UP, KEY_PAGE_DOWN, KEY_ARROW_UP and KEY_ARROW_DOWN, as bytes.
abbrev pub key_page_up : ℕ
key_page_up = 0x80

abbrev pub key_page_down : ℕ
key_page_down = 0x81

abbrev pub key_arrow_up : ℕ
key_arrow_up = 0x82

abbrev pub key_arrow_down : ℕ
key_arrow_down = 0x83

-- What `shell_getchar` returns for it, if it does.
unfoldable pub accepted : Input → Option ℕ
accepted (serial c) =
    if c == 13 || c == 10
    then some 10
    else if c == 8 || c == 127
    then some 8
    else if c == 9 || (leb 32 c && ltb c 127)
    then some c
    else none
accepted (keyboard c shift) =
    if c == key_page_up
      || c == key_page_down
      || ((c == key_arrow_up || c == key_arrow_down) && shift)
    then none
    else some c

-- The view after it.
unfoldable pub scrolled : Terminal → Input → Terminal
scrolled t (serial c) = t
scrolled t (keyboard c shift) =
    if c == key_page_up
    then terminal_scroll_up t 24
    else if c == key_page_down
    then terminal_scroll_down t 24
    else if c == key_arrow_up && shift
    then terminal_scroll_up t 1
    else if c == key_arrow_down && shift
    then terminal_scroll_down t 1
    else t

pub record Line : Type 0 where
  pub buffer : List ℕ
  pub pos : ℕ
  pub terminal : Terminal

unfoldable pub erase : Line → Line
erase l =
    if ltb 0 l.pos
    then record l { pos = l.pos - 1; terminal = terminal_putchar l.terminal 8 }
    else l

unfoldable pub store : Line → ℕ → Line
store l c =
    if ltb l.pos (shell_buffer_size - 1)
    then record {
      buffer = set l.buffer l.pos c;
      pos = l.pos + 1;
      terminal = terminal_putchar l.terminal c;
    }
    else l

-- The command, the terminal and what has not been read, when a line has ended.
unfoldable pub read_command : List Input → Line → Option (List ℕ × Terminal × List Input)
unfolding accepted scrolled erase store
read_command [] l = none
read_command (e ∷ events) l =
    let seen = record l { terminal = scrolled l.terminal e } in
    let idle = read_command events seen in
    let erased = read_command events (erase seen) in
    let stored = λ (c : ℕ). read_command events (store seen c) in
    elim (accepted e) [
      | none ↦ idle
      | some c ↦
          if c == 8
          then erased
          else if c == 10
          then some (c_string (set l.buffer l.pos 0), terminal_putchar seen.terminal 10, events)
          else stored c
    ]
