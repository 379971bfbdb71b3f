-- ===== src/Shell/Line.antt =====
-- What the shell reads as a command, kernel/src/shell.c.

use mathlib.Core.List.{append_assoc}
use kfs.Base.{
  ℕ, ◌+◌, ◌-◌, ◌<◌, ◌≡◌, ◌≢◌, refl, sym, ap, subst, ◌∙◌, Bool, true, false, Bool-cases, inl, inr,
  List, [], ◌∷◌, ◌++◌, Option, none, some, ltb, ◌==◌, if◌then◌else◌, set, All, arith, length,
  length-append,
}
use kfs.Shell.{c_string}
use kfs.Shell.Input.{Input, Line, accepted, scrolled, erase, store, read_command}
use kfs.Terminal.{Terminal, terminal_putchar}

unfoldable pub drop_last : List ℕ → List ℕ
drop_last [] = []
drop_last (x ∷ []) = []
drop_last (x ∷ y ∷ xs) = x ∷ drop_last (y ∷ xs)

-- The text that the characters spell, when they end a line.
unfoldable pub typed : List Input → List ℕ → Option (List ℕ)
unfolding drop_last
typed [] text = none
typed (e ∷ events) text =
    let idle = typed events text in
    let erased = typed events (drop_last text) in
    let stored = λ (c : ℕ). typed events (if ltb (length text) 255 then text ++ c ∷ [] else text) in
    elim (accepted e) [
      | none ↦ idle
      | some c ↦ if c == 8 then erased else if c == 10 then some text else stored c
    ]

-- The buffer holds the text before the position.
pub record HasText (l : Line) (text : List ℕ) : Type 0 where
  pub junk : List ℕ
  pub held : l.buffer ≡ text ++ junk
  pub at : l.pos ≡ length text
  pub size : length l.buffer ≡ 256
  pub room : length text < 256
  pub plain : All (λ c. c ≢ 0) text

set-append : (xs ys : List ℕ) (y c : ℕ) → set (xs ++ y ∷ ys) (length xs) c ≡ xs ++ c ∷ ys
set-append [] ys y c = refl
set-append (x ∷ xs) ys y c = ap (λ zs. x ∷ zs) (set-append xs ys y c)

c_string-append : (xs ys : List ℕ) → All (λ c. c ≢ 0) xs → c_string (xs ++ 0 ∷ ys) ≡ xs
c_string-append [] ys plain = refl
c_string-append (x ∷ xs) ys (nz, plain) =
    let c : (x == 0) ≡ false = ground (arith, nz) in
    rw c (ap (λ zs. x ∷ zs) (c_string-append xs ys plain))

All-snoc : (P : ℕ → Type 0) (xs : List ℕ) (c : ℕ) → All P xs → P c → All P (xs ++ c ∷ [])
All-snoc P [] c all h = (h, tt)
All-snoc P (x ∷ xs) c (here, all) h = (here, All-snoc P xs c all h)

-- A text is empty, or ends with what `drop_last` takes off.
drop_last_lem :
    (P : ℕ → Type 0) (x : ℕ) (xs : List ℕ)
    → All P (x ∷ xs)
    → (z : ℕ) × (x ∷ xs ≡ drop_last (x ∷ xs) ++ z ∷ []) × All P (drop_last (x ∷ xs))
unfolding drop_last
drop_last_lem P x [] all = (x, refl, tt)
drop_last_lem P x (y ∷ xs) (here, all) =
    let (z, e, rest) = drop_last_lem P y xs all in (z, ap (λ zs. x ∷ zs) e, (here, rest))

erase-HasText : (l : Line) (text : List ℕ) → HasText l text → HasText (erase l) (drop_last text)
unfolding erase drop_last
erase-HasText l [] h =
    let c : ltb 0 l.pos ≡ false = ground (arith, h.at) in let kept : HasText l [] = h in rw c kept
erase-HasText l (x ∷ xs) h =
    let (z, e, plain) = drop_last_lem (λ c. c ≢ 0) x xs h.plain in
    let ys = drop_last (x ∷ xs) in
    let size = ap length e ∙ length-append ys (z ∷ []) in
    let c : ltb 0 l.pos ≡ true = ground (arith, h.at) in
    let less = record l { pos = l.pos - 1; terminal = terminal_putchar l.terminal 8 } in
    let shorter : HasText less ys = record {
      junk = z ∷ h.junk;
      held = h.held ∙ ap (λ zs. zs ++ h.junk) e ∙ append_assoc ys (z ∷ []) h.junk;
      at = omega (arith, h.at, size);
      size = h.size;
      room = omega (arith, h.room, size);
      plain = plain;
    } in
    subst (λ b. HasText (if b then less else l) ys) (sym c) shorter

set_first :
    (text junk : List ℕ) (c : ℕ)
    → length text < length (text ++ junk)
    → (rest : List ℕ) × (set (text ++ junk) (length text) c ≡ text ++ c ∷ rest)
      × (length (text ++ c ∷ rest) ≡ length (text ++ junk))
set_first text [] c small = absurd (omega (arith, length-append text [], small))
set_first text (y ∷ ys) c small =
    (ys, set-append text ys y c, length-append text (c ∷ ys) ∙ sym (length-append text (y ∷ ys)))

store-HasText :
    (l : Line) (text : List ℕ) (c : ℕ)
    → c ≢ 0
    → HasText l text
    → HasText (store l c) (if ltb (length text) 255 then text ++ c ∷ [] else text)
unfolding store
store-HasText l text c nz h =
    let same = ap (λ n. ltb n 255) h.at in
    let full = ap length h.held in
    let (rest, e, size) = set_first text h.junk c (omega (arith, h.room, h.size, full)) in
    let more : Line = record {
      buffer = set l.buffer l.pos c;
      pos = l.pos + 1;
      terminal = terminal_putchar l.terminal c;
    } in
    let long = length-append text (c ∷ []) in
    let stored = ap (λ b. set b l.pos c) h.held ∙ ap (λ n. set (text ++ h.junk) n c) h.at ∙ e in
    elim (Bool-cases (ltb (length text) 255)) [
      | inl short ↦
          let longer : HasText more (text ++ c ∷ []) = record {
            junk = rest;
            held = stored ∙ sym (append_assoc text (c ∷ []) rest);
            at = omega (arith, h.at, long);
            size = omega (arith, ap length stored, size, full, h.size);
            room = ground (arith, short, long);
            plain = All-snoc _ text c h.plain nz;
          } in
          subst
            (λ b.
              HasText (if b then more else l)
                (if ltb (length text) 255 then text ++ c ∷ [] else text))
            (sym (same ∙ short))
            (subst (λ b. HasText more (if b then text ++ c ∷ [] else text)) (sym short) longer)
      | inr long_enough ↦
          subst
            (λ b.
              HasText (if b then more else l)
                (if ltb (length text) 255 then text ++ c ∷ [] else text))
            (sym (same ∙ long_enough))
            (subst (λ b. HasText l (if b then text ++ c ∷ [] else text)) (sym long_enough) h)
    ]

abbrev pub text_of : Option (List ℕ × Terminal × List Input) → Option (List ℕ)
text_of none = none
text_of (some (text, terminal, rest)) = some text

-- What a choice between two branches gives, when they agree.
branch :
    (b : Bool) (x y : Option (List ℕ × Terminal × List Input)) (p q : Option (List ℕ))
    → text_of x ≡ p
    → text_of y ≡ q
    → text_of (if b then x else y) ≡ (if b then p else q)
branch true x y p q e f = e
branch false x y p q e f = f

ended : (l : Line) (text : List ℕ) → HasText l text → c_string (set l.buffer l.pos 0) ≡ text
ended l text h =
    let full = ap length h.held in
    let (rest, e, size) = set_first text h.junk 0 (omega (arith, h.room, h.size, full)) in
    ap c_string (ap (λ b. set b l.pos 0) h.held ∙ ap (λ n. set (text ++ h.junk) n 0) h.at ∙ e)
    ∙ c_string-append text rest h.plain

-- No character that is returned is 0.
abbrev pub NotZero : Option ℕ → Type 0
NotZero none = Unit
NotZero (some c) = c ≢ 0

abbrev pub IsGiven : Input → Type 0
IsGiven e = NotZero (accepted e)

read_command_text :
    (events : List Input) (l : Line) (text : List ℕ)
    → All IsGiven events
    → HasText l text
    → text_of (read_command events l) ≡ typed events text
unfolding read_command typed
read_command_text [] l text given h = refl
read_command_text (e ∷ events) l text (nz, given) h =
    let seen = record l { terminal = scrolled l.terminal e } in
    let on : HasText seen text = record {
      junk = h.junk;
      held = h.held;
      at = h.at;
      size = h.size;
      room = h.room;
      plain = h.plain;
    } in
    let after : ℕ → Option (List ℕ × Terminal × List Input) = λ c.
      if c == 8
      then read_command events (erase seen)
      else if c == 10
      then some (c_string (set l.buffer l.pos 0), terminal_putchar seen.terminal 10, events)
      else read_command events (store seen c) in
    let spelled : ℕ → Option (List ℕ) = λ c.
      if c == 8
      then typed events (drop_last text)
      else if c == 10
      then some text
      else typed events (if ltb (length text) 255 then text ++ c ∷ [] else text) in
    let both : (o : Option ℕ) → Type 0 = λ o.
      NotZero o
      → text_of (elim o [ none ↦ read_command events seen | some c ↦ after c ])
        ≡ elim o [ none ↦ typed events text | some c ↦ spelled c ] in
    let every : both (accepted e) = elim (accepted e) as both [
      | none ↦ λ given'. read_command_text events seen text given on
      | some c ↦ λ given'.
          branch (c == 8) (read_command events (erase seen)) _ (typed events (drop_last text)) _
            (read_command_text events (erase seen) (drop_last text) given
              (erase-HasText seen text on))
            (branch (c == 10) _ (read_command events (store seen c)) (some text) _
              (ap some (ended l text h))
              (read_command_text events (store seen c)
                (if ltb (length text) 255 then text ++ c ∷ [] else text) given
                (store-HasText seen text c given' on)))
    ] in
    every nz

-- With a buffer of 256 bytes and characters that are not 0, the shell reads as a command the text
-- that the accepted characters spell up to the first that ends a line: a backspace takes the last
-- character off, and what does not fit is left out. It waits for more just when none ends a line.
pub read_command_lem :
    (events : List Input) (buffer : List ℕ) (t : Terminal)
    → length buffer ≡ 256
    → All IsGiven events
    → text_of (read_command events (record { buffer = buffer; pos = 0; terminal = t }))
      ≡ typed events []
read_command_lem events buffer t size given =
    read_command_text events _ [] given (record {
      junk = buffer;
      held = refl;
      at = refl;
      size = size;
      room = omega arith;
      plain = tt;
    })
