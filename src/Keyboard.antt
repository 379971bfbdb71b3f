-- ===== src/Keyboard.antt =====
-- The keyboard driver, kernel/src/keyboard.c: scancodes from the data port become characters in a
-- circular buffer, and a kernel signal each. Characters are the bytes that they are stored as. What
-- the ports deliver is an argument.
pub mod Buffer
pub mod Handler
pub mod Line
mod Tests
use kfs.Base.{
  ℕ, zero, suc, ◌+◌, ◌-◌, ◌%◌, Bool, true, false, not, ◌||◌, Option, none, some, List, [], ◌∷◌,
  ◌++◌, leb, ltb, ◌==◌, if◌then◌else◌, get_or, set, map,
}
use kfs.Signals.{Signals, schedule_signal}
use Prim.Native.Char.{code}
use Prim.Native.String
use Prim.Native.String.{String}

abbrev pub keyboard_buffer_size : ℕ
keyboard_buffer_size = 256

abbrev pub codes : String → List ℕ
codes String.[] = []
codes (String.◌∷◌ c s) = code c ∷ codes s

-- `\b`, `\t` and `\n`
abbrev pub backspace : ℕ
backspace = 8

abbrev tab : ℕ
tab = 9

abbrev pub newline : ℕ
newline = 10

-- The two tables, with 0 for a scancode that stands for no character. 34, 39 and 92 are the
-- double quote, the single quote and the backslash.
abbrev pub scancode_to_ascii : List ℕ
scancode_to_ascii =
    0 ∷ 0 ∷ codes "1234567890-="
    ++ (backspace ∷ tab ∷ codes "qwertyuiop[]"
        ++ (newline ∷ 0 ∷ codes "asdfghjkl;"
            ++ (39 ∷ 96 ∷ 0 ∷ 92 ∷ codes "zxcvbnm,./" ++ (0 ∷ 42 ∷ 0 ∷ 32 ∷ []))))

abbrev pub scancode_to_ascii_shift : List ℕ
scancode_to_ascii_shift =
    0 ∷ 0 ∷ codes "!@#$%^&*()_+"
    ++ (backspace ∷ tab ∷ codes "QWERTYUIOP{}"
        ++ (newline ∷ 0 ∷ codes "ASDFGHJKL:"
            ++ (34 ∷ 126 ∷ 0 ∷ 124 ∷ codes "ZXCVBNM<>?" ++ (0 ∷ 42 ∷ 0 ∷ 32 ∷ []))))

pub record Keyboard : Type 0 where
  pub keyboard_buffer : List ℕ
  pub keyboard_head : ℕ
  pub keyboard_tail : ℕ
  pub shift_held : Bool
  pub extended_prefix : Bool

unfoldable pub keyboard_queue_char : Keyboard → ℕ → Keyboard
keyboard_queue_char k c =
    let next_tail = (k.keyboard_tail + 1) % keyboard_buffer_size in
    if next_tail == k.keyboard_head then k else record k {
      keyboard_buffer = set k.keyboard_buffer k.keyboard_tail c;
      keyboard_tail = next_tail;
    }

-- KEY_ARROW_UP, KEY_ARROW_DOWN, KEY_PAGE_UP and KEY_PAGE_DOWN; 0 for any other extended key.
unfoldable pub extended_key : ℕ → ℕ
extended_key scancode =
    if scancode == 0x48
    then 0x82
    else if scancode == 0x50
    then 0x83
    else if scancode == 0x49
    then 0x80
    else if scancode == 0x51
    then 0x81
    else 0

unfoldable pub plain_key : Bool → ℕ → ℕ
plain_key shift scancode =
    get_or (if shift then scancode_to_ascii_shift else scancode_to_ascii) scancode 0

module _ {H : Type 0} where
  -- KERNEL_SIGNAL_KEYBOARD is 2. Whether the signal found room is not looked at.
  unfoldable pub post_key : Keyboard × Signals H → ℕ → Keyboard × Signals H
  post_key (k, s) c = elim (schedule_signal s 2 c 0) [
    | none ↦ (keyboard_queue_char k c, s)
    | some t ↦ (keyboard_queue_char k c, t)
  ]

  -- The key that a scancode stands for, if it is not 0, is queued and posted.
  unfoldable pub accept_key : Keyboard × Signals H → ℕ → Keyboard × Signals H
  unfolding post_key
  accept_key ks c = if c == 0 then ks else post_key ks c

  -- `scancode` is what the data port delivers.
  unfoldable pub keyboard_handler : Keyboard × Signals H → ℕ → Keyboard × Signals H
  unfolding accept_key extended_key plain_key
  keyboard_handler (k, s) scancode =
      let is_release = leb 0x80 scancode in
      if scancode == 0x2A || scancode == 0x36
      then (record k { shift_held = true }, s)
      else if scancode == 0xAA || scancode == 0xB6
      then (record k { shift_held = false }, s)
      else if scancode == 0xE0
      then (record k { extended_prefix = true }, s)
      else if k.extended_prefix
      then if is_release
        then (record k { extended_prefix = false }, s)
        else accept_key (record k { extended_prefix = false }, s) (extended_key scancode)
      else if is_release || leb 58 scancode
      then (k, s)
      else accept_key (k, s) (plain_key k.shift_held scancode)

unfoldable pub keyboard_has_char : Keyboard → Bool
keyboard_has_char k = not (k.keyboard_head == k.keyboard_tail)

-- `none` is the 0 of the source: there is no character.
unfoldable pub keyboard_try_read_char : Keyboard → Option (ℕ × Keyboard)
keyboard_try_read_char k =
    if k.keyboard_head == k.keyboard_tail
    then none
    else some (
      get_or k.keyboard_buffer k.keyboard_head 0,
      record k { keyboard_head = (k.keyboard_head + 1) % keyboard_buffer_size },
    )

-- `init_keyboard`, as far as it changes the buffer.
unfoldable pub init_keyboard : Keyboard → Keyboard
init_keyboard k = record k { keyboard_head = 0; keyboard_tail = 0 }

-- The loop of `keyboard_get_line` over the characters that `keyboard_getchar` returns in turn: the
-- position and the buffer at its end, `none` while it still waits for a character.
unfoldable pub read_line : List ℕ → ℕ → ℕ → List ℕ → Option (ℕ × List ℕ)
read_line [] buffer_size position buffer =
    if ltb (position + 1) buffer_size then none else some (position, buffer)
read_line (c ∷ cs) buffer_size position buffer =
    let erased =
      read_line cs buffer_size (if ltb 0 position then position - 1 else position) buffer in
    let stored = read_line cs buffer_size (position + 1) (set buffer position c) in
    if ltb (position + 1) buffer_size
    then if c == backspace
      then erased
      else if c == newline
      then some (position + 1, set buffer position c)
      else stored
    else some (position, buffer)

-- `refused` is the result -1; `line` has the result and the buffer's new content.
pub data LineResult : Type 0 where
  waiting refused : LineResult
  line : ℕ → List ℕ → LineResult

abbrev pub terminate : Option (ℕ × List ℕ) → LineResult
terminate none = waiting
terminate (some (position, buffer)) = line position (set buffer position 0)

-- The buffer is `none` for the null pointer, else what it holds.
unfoldable pub keyboard_get_line : List ℕ → Option (List ℕ) → ℕ → LineResult
unfolding read_line
keyboard_get_line chars none buffer_size = refused
keyboard_get_line chars (some buffer) buffer_size =
    if buffer_size == 0 then refused else terminate (read_line chars buffer_size 0 buffer)
