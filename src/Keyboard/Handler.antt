-- ===== src/Keyboard/Handler.antt =====
-- `keyboard_handler`: how a scancode is decoded, and what it queues and posts.
use kfs.Base.{
  ℕ, ◌-◌, ◌≤◌, ◌≡◌, refl, Bool, true, false, not, ◌&&◌, ◌||◌, Option, none, some, List, [], ◌∷◌,
  arith, leb, ltb, ◌==◌, if◌then◌else◌, Bool-cases, Option-cases, inl, inr, length, get_or-ge,
}
use kfs.Signals.{Signals, schedule_signal}
use kfs.Signals.Queue
use kfs.Signals.Queue.{schedule_signal-IsValid}
use kfs.Keyboard.Buffer.{
  IsValid, typed, push_or_drop, keyboard_queue_char-IsValid, keyboard_queue_char_refines,
}
use kfs.Keyboard.{
  Keyboard, scancode_to_ascii, scancode_to_ascii_shift, extended_key, plain_key, post_key,
  accept_key, keyboard_handler, keyboard_queue_char,
}

-- The scancodes of the shift keys, pressed and released.
abbrev pub shift_press : ℕ → Bool
shift_press scancode = scancode == 0x2A || scancode == 0x36

abbrev pub shift_release : ℕ → Bool
shift_release scancode = scancode == 0xAA || scancode == 0xB6

-- The flags behind a scancode, and the character that it stands for, 0 for none.
abbrev pub shift_after : Keyboard → ℕ → Bool
shift_after k scancode =
    if shift_press scancode then true else if shift_release scancode then false else k.shift_held

abbrev pub prefix_after : Keyboard → ℕ → Bool
prefix_after k scancode =
    if shift_press scancode || shift_release scancode then k.extended_prefix else scancode == 0xE0

abbrev pub decoded : Keyboard → ℕ → ℕ
decoded k scancode =
    if leb 0x80 scancode || shift_press scancode
    then 0
    else if k.extended_prefix
    then extended_key scancode
    else plain_key k.shift_held scancode

plain_key_above : (shift : Bool) (scancode : ℕ) → 58 ≤ scancode → plain_key shift scancode ≡ 0
unfolding plain_key
plain_key_above true scancode h = get_or-ge scancode_to_ascii_shift scancode 0 h
plain_key_above false scancode h = get_or-ge scancode_to_ascii scancode 0 h

queue_char_flags :
    (k : Keyboard) (c : ℕ)
    → ((keyboard_queue_char k c).shift_held ≡ k.shift_held)
      × ((keyboard_queue_char k c).extended_prefix ≡ k.extended_prefix)
unfolding keyboard_queue_char
queue_char_flags k c = (ground arith, ground arith)

module _ {H : Type 0} where
  accept_zero : (ks : Keyboard × Signals H) → accept_key ks 0 ≡ ks
  unfolding accept_key
  accept_zero ks = refl

  handler_decodes :
      (k : Keyboard) (s : Signals H) (scancode : ℕ)
      → keyboard_handler (k, s) scancode
        ≡ accept_key
            (
              record k {
                shift_held = shift_after k scancode;
                extended_prefix = prefix_after k scancode;
              },
              s,
            )
            (decoded k scancode)
  unfolding keyboard_handler
  handler_decodes k s scancode =
      ground (arith, plain_key_above k.shift_held scancode, accept_zero (k, s))

  -- The signal queue with KERNEL_SIGNAL_KEYBOARD posted, as it was where there is no room.
  abbrev pub or_same : Signals H → Option (Signals H) → Signals H
  or_same s none = s
  or_same s (some t) = t

  abbrev pub posted : Signals H → ℕ → Signals H
  posted s c = or_same s (schedule_signal s 2 c 0)

  post_key_eq :
      (k : Keyboard) (s : Signals H) (c : ℕ)
      → post_key (k, s) c ≡ (keyboard_queue_char k c, posted s c)
  unfolding post_key
  post_key_eq k s c = elim (Option-cases (schedule_signal s 2 c 0)) [
    | inl e ↦ rw (e, post_key)
    | inr (t, e) ↦ rw (e, post_key)
  ]

  posted-IsValid : {s : Signals H} (c : ℕ) → Queue.IsValid s → Queue.IsValid (posted s c)
  posted-IsValid {s} c w = elim (Option-cases (schedule_signal s 2 c 0)) [
    | inl e ↦ rw e w
    | inr (t, e) ↦ rw e (schedule_signal-IsValid w 2 c 0 e)
  ]

  -- What accepting a character does: nothing for 0, else it is typed and posted.
  pub record Accepted (k : Keyboard) (s : Signals H) (c : ℕ) (r : Keyboard × Signals H)
      : Type 0 where
    pub valid : IsValid r.0
    pub signals_valid : Queue.IsValid r.1
    pub shift : r.0.shift_held ≡ k.shift_held
    pub prefix : r.0.extended_prefix ≡ k.extended_prefix
    pub types : typed r.0 ≡ (if c == 0 then typed k else push_or_drop (typed k) c)
    pub posts : r.1 ≡ (if c == 0 then s else posted s c)

  accept_key-Accepted :
      (k : Keyboard) (s : Signals H) (c : ℕ)
      → IsValid k
      → Queue.IsValid s
      → Accepted k s c (accept_key (k, s) c)
  unfolding accept_key
  accept_key-Accepted k s c v w = elim (Bool-cases (c == 0)) [
    | inl nothing ↦ rw nothing (record {
      valid = v;
      signals_valid = w;
      shift = refl;
      prefix = refl;
      types = rw nothing;
      posts = rw nothing;
    })
    | inr key ↦
        rw (key, post_key_eq k s c)
          (record {
            valid = keyboard_queue_char-IsValid v c;
            signals_valid = posted-IsValid c w;
            shift = (queue_char_flags k c).0;
            prefix = (queue_char_flags k c).1;
            types = rw key (keyboard_queue_char_refines v c);
            posts = rw key;
          })
  ]

  -- The handler keeps both queues valid. It updates the two flags, and types and posts exactly the
  -- character that the scancode stands for under the flags before it, if it stands for one: a
  -- released key and a shift key never do.
  pub keyboard_handler_lem :
      (k : Keyboard) (s : Signals H) (scancode : ℕ)
      → IsValid k
      → Queue.IsValid s
      → Accepted
          (record k {
            shift_held = shift_after k scancode;
            extended_prefix = prefix_after k scancode;
          })
          s
          (decoded k scancode)
          (keyboard_handler (k, s) scancode)
  keyboard_handler_lem k s scancode v w = rw (handler_decodes k s scancode) (
      accept_key-Accepted _ s (decoded k scancode)
        (record { size = v.size; head = v.head; tail = v.tail }) w)

-- Of the 58 scancodes of the tables, shift turns each lower-case letter into its capital, and
-- leaves the keys that type a control character.
abbrev shift_row : ℕ → ℕ → Bool
shift_row plain shifted =
    if leb b'a' plain && leb plain b'z'
    then shifted == plain - 32
    else not (ltb plain 32) || shifted == plain

abbrev pub paired : List ℕ → List ℕ → Bool
paired [] [] = true
paired [] (y ∷ ys) = false
paired (x ∷ xs) [] = false
paired (x ∷ xs) (y ∷ ys) = shift_row x y && paired xs ys

tables_lem :
    (length scancode_to_ascii ≡ 58) × (paired scancode_to_ascii scancode_to_ascii_shift ≡ true)
tables_lem = (refl, refl)
