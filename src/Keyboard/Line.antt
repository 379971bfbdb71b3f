-- ===== src/Keyboard/Line.antt =====
-- `keyboard_get_line`: what stands in the buffer when it returns, and that it returns.
use kfs.Base.{
  ℕ, ◌+◌, ◌-◌, ◌≤◌, ◌<◌, ◌≡◌, refl, ◌≢◌, ◌++◌, subst, ◌⊎◌, inl, inr, false, Option, none, some,
  List, [], ◌∷◌, arith, ltb, ltb→lt, ◌==◌, ==_iff, if◌then◌else◌, Bool-cases, length, length-set,
  get_or, set, get_or-set_self, get_or-set_ne,
}
use native.Mathlib.Decide.{ℕ_discrete}
use kfs.Keyboard.{
  backspace, newline, read_line, LineResult, waiting, refused, line, terminate, keyboard_get_line,
}

-- The places below `n` hold no character that edits or ends a line.
abbrev pub IsPlain : List ℕ → ℕ → Type 0
IsPlain buffer n = (i : ℕ) → i < n → (get_or buffer i 0 ≢ backspace) × (get_or buffer i 0 ≢ newline)

-- A line of `position` characters: plain ones, but that the last may end the line, which it does
-- unless the buffer is full.
pub record IsLine (buffer_size position : ℕ) (buffer : List ℕ) : Type 0 where
  pub fits : position < buffer_size
  pub plain : IsPlain buffer (position - 1)
  pub ends :
      ((0 < position) × (get_or buffer (position - 1) 0 ≡ newline))
      ⊎ ((position + 1 ≡ buffer_size) × IsPlain buffer position)

abbrev pub LineOf : ℕ → ℕ → Option (ℕ × List ℕ) → Type 0
LineOf buffer_size n none = Unit {0}
LineOf buffer_size n (some (position, buffer)) =
    IsLine buffer_size position buffer × (length buffer ≡ n)

IsPlain-le : (buffer : List ℕ) (m n : ℕ) → m ≤ n → IsPlain buffer n → IsPlain buffer m
IsPlain-le buffer m n h p i lt = p i (omega arith)

IsPlain-set :
    (buffer : List ℕ) (n c : ℕ)
    → n < length buffer
    → IsPlain buffer n
    → c ≢ backspace
    → c ≢ newline
    → IsPlain (set buffer n c) (n + 1)
IsPlain-set buffer n c h p ne nn i lt = elim (ℕ_discrete n i) [
  | yes e ↦ rw (← e, get_or-set_self buffer n c 0 h) (ne, nn)
  | no other ↦ rw (get_or-set_ne buffer n i c 0 other) (p i (omega arith))
]

full-IsLine :
    (buffer_size position : ℕ) (buffer : List ℕ)
    → position < buffer_size
    → ltb (position + 1) buffer_size ≡ false
    → IsPlain buffer position
    → IsLine buffer_size position buffer
full-IsLine buffer_size position buffer h full p = record {
  fits = h;
  plain = IsPlain-le buffer (position - 1) position (omega arith) p;
  ends = inr (ground arith, p);
}

ended-IsLine :
    (buffer_size position c : ℕ) (buffer : List ℕ)
    → position + 1 < buffer_size
    → position < length buffer
    → c ≡ newline
    → IsPlain buffer position
    → IsLine buffer_size (position + 1) (set buffer position c)
ended-IsLine buffer_size position c buffer h k e p =
    let last : position + 1 - 1 ≡ position = omega arith in
    record {
      fits = h;
      plain = rw last (λ i lt. rw (get_or-set_ne buffer position i c 0 (omega arith)) (p i lt));
      ends = inl (omega arith, rw (last, get_or-set_self buffer position c 0 k) e);
    }

read_line-LineOf :
    (chars : List ℕ) (buffer_size position : ℕ) (buffer : List ℕ)
    → position < buffer_size
    → buffer_size ≤ length buffer
    → IsPlain buffer position
    → LineOf buffer_size (length buffer) (read_line chars buffer_size position buffer)
unfolding read_line
read_line-LineOf [] buffer_size position buffer h k p =
    elim (Bool-cases (ltb (position + 1) buffer_size)) [
      | inl room ↦ rw room tt
      | inr full ↦ rw full (full-IsLine buffer_size position buffer h full p, refl)
    ]
read_line-LineOf (c ∷ cs) buffer_size position buffer h k p =
    elim (Bool-cases (ltb (position + 1) buffer_size)) [
      | inr full ↦ rw full (full-IsLine buffer_size position buffer h full p, refl)
      | inl room ↦ rw room (elim (Bool-cases (c == backspace)) [
        | inl erase ↦ rw erase (
            read_line-LineOf cs buffer_size _ buffer (ground arith) k
              (IsPlain-le buffer _ position (ground arith) p))
        | inr keep ↦ rw keep (elim (Bool-cases (c == newline)) [
          | inl end ↦ rw end (
            ended-IsLine buffer_size position c buffer (ltb→lt _ _ room) (omega arith)
                ((==_iff _ _).0 end) p,
            length-set buffer position c,
          )
          | inr more ↦ rw more (
              subst
                (λ n.
                  LineOf buffer_size n
                    (read_line cs buffer_size (position + 1) (set buffer position c)))
                (length-set buffer position c)
                (read_line-LineOf cs buffer_size (position + 1) (set buffer position c)
                  (ltb→lt _ _ room) (omega (arith, length-set buffer position c))
                  (IsPlain-set buffer position c (omega arith) p (ground arith) (ground arith))))
        ])
      ])
    ]

-- The terminating zero stands behind the line and changes none of it.
terminate-IsLine :
    (buffer_size position : ℕ) (buffer : List ℕ)
    → IsLine buffer_size position buffer
    → IsLine buffer_size position (set buffer position 0)
terminate-IsLine buffer_size position buffer v = record {
  fits = v.fits;
  plain = λ i lt. rw (get_or-set_ne buffer position i 0 0 (omega arith)) (v.plain i lt);
  ends = elim (v.ends) [
    | inl (pos, e) ↦
        inl (pos, rw (get_or-set_ne buffer position (position - 1) 0 0 (omega arith)) e)
    | inr (full, p) ↦
        inr (full, λ i lt. rw (get_or-set_ne buffer position i 0 0 (omega arith)) (p i lt))
  ];
}

-- A finished line, with its zero.
abbrev pub Finished : ℕ → LineResult → Type 0
Finished buffer_size waiting = Unit {0}
Finished buffer_size refused = ⊥
Finished buffer_size (line position buffer) =
    IsLine buffer_size position buffer × (get_or buffer position 1 ≡ 0)

terminate-Finished :
    (buffer_size n : ℕ) (r : Option (ℕ × List ℕ))
    → buffer_size ≤ n
    → LineOf buffer_size n r
    → Finished buffer_size (terminate r)
terminate-Finished buffer_size n none h l = tt
terminate-Finished buffer_size n (some (position, buffer)) h (v, e) = (
  terminate-IsLine buffer_size position buffer v,
  get_or-set_self buffer position 0 1 (omega (arith, v.fits)),
)

-- For a buffer of at least `buffer_size` places, and not of size 0, `keyboard_get_line` never
-- refuses; what it returns is a line that fits with its terminating zero, holds no backspace, has a
-- newline at most as its last character, and lacks it only if the buffer is full.
pub keyboard_get_line_lem :
    (chars buffer : List ℕ) (buffer_size : ℕ)
    → 0 < buffer_size
    → buffer_size ≤ length buffer
    → Finished buffer_size (keyboard_get_line chars (some buffer) buffer_size)
unfolding keyboard_get_line
keyboard_get_line_lem chars buffer buffer_size pos h =
    let e : (buffer_size == 0) ≡ false = ground arith in
    rw e (
      terminate-Finished buffer_size (length buffer) (read_line chars buffer_size 0 buffer) h
        (read_line-LineOf chars buffer_size 0 buffer pos h (λ i lt. absurd (omega arith))))

read_line-ends :
    (before after : List ℕ) (buffer_size position : ℕ) (buffer : List ℕ)
    → read_line (before ++ newline ∷ after) buffer_size position buffer ≢ none
unfolding read_line
read_line-ends [] after buffer_size position buffer = ground arith
read_line-ends (c ∷ cs) after buffer_size position buffer = ground (
  arith,
  read_line-ends cs after buffer_size (if ltb 0 position then position - 1 else position) buffer,
  read_line-ends cs after buffer_size (position + 1) (set buffer position c),
)

-- A newline among the characters typed ends the wait, whatever was typed before it.
pub keyboard_get_line_ends :
    (before after : List ℕ) (buffer : Option (List ℕ)) (buffer_size : ℕ)
    → keyboard_get_line (before ++ newline ∷ after) buffer buffer_size ≢ waiting
unfolding keyboard_get_line
keyboard_get_line_ends before after none buffer_size = ground arith
keyboard_get_line_ends before after (some buffer) buffer_size =
    ground (arith, read_line-ends before after buffer_size 0 buffer)
