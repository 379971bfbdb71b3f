-- ===== src/Keyboard/Tests.antt =====
-- Tests of the keyboard driver, and its theorems at concrete inputs.
use kfs.Base.{
  ℕ, ◌≡◌, refl, ◌≢◌, true, false, some, List, [], ◌∷◌, ◌++◌, arith, replicate, All-replicate,
}
use kfs.Signals.{Signals, no_signal, signal_queue_capacity, signals_init}
use kfs.Signals.Queue.{SignalFits, signals_init-IsValid}
use kfs.Signals.Queue
use kfs.Keyboard.{
  Keyboard, keyboard_handler, keyboard_get_line, keyboard_buffer_size, newline, backspace, waiting,
  line, codes, plain_key,
}
use kfs.Keyboard.Buffer.{IsValid}
use kfs.Keyboard.Handler.{Accepted, keyboard_handler_lem}
use kfs.Keyboard.Line.{Finished, keyboard_get_line_lem, keyboard_get_line_ends}

-- Shift is held, and nothing is typed yet.
abbrev shifted : Keyboard
shifted = record {
  keyboard_buffer = replicate keyboard_buffer_size 0;
  keyboard_head = 250;
  keyboard_tail = 250;
  shift_held = true;
  extended_prefix = false;
}

shifted-IsValid : IsValid shifted
shifted-IsValid = record { size = refl; head = omega arith; tail = omega arith }

abbrev quiet : Signals ℕ
quiet = record {
  signal_handlers = [];
  pending_signals = replicate signal_queue_capacity no_signal;
  signal_head = 0;
  signal_tail = 0;
}

quiet-IsValid : Queue.IsValid (signals_init quiet)
quiet-IsValid =
    (signals_init-IsValid quiet refl
      (All-replicate SignalFits signal_queue_capacity no_signal (omega arith))).0

-- The key A under shift.
keyboard_handler_lem_example :
    Accepted shifted (signals_init quiet) 65 (keyboard_handler (shifted, signals_init quiet) 0x1E)
unfolding plain_key
keyboard_handler_lem_example =
    keyboard_handler_lem shifted (signals_init quiet) 0x1E shifted-IsValid quiet-IsValid

-- "ax", a backspace, "b" and a newline.
abbrev keys : List ℕ
keys = codes "ax" ++ (backspace ∷ codes "b" ++ (newline ∷ []))

line_runs : keyboard_get_line keys (some (replicate 6 1)) 6 ≡ line 3 (97 ∷ 98 ∷ 10 ∷ 0 ∷ 1 ∷ 1 ∷ [])
unfolding keyboard_get_line
line_runs = refl

keyboard_get_line_lem_example : Finished 6 (keyboard_get_line keys (some (replicate 6 1)) 6)
keyboard_get_line_lem_example =
    keyboard_get_line_lem keys (replicate 6 1) 6 (omega arith) (omega arith)

keyboard_get_line_ends_example :
    keyboard_get_line (codes "ab" ++ newline ∷ []) (some (replicate 6 1)) 6 ≢ waiting
keyboard_get_line_ends_example = keyboard_get_line_ends (codes "ab") [] (some (replicate 6 1)) 6
