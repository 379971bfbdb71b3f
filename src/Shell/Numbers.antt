-- ===== src/Shell/Numbers.antt =====
-- What the shell prints of a number, it reads back as that number.
use kfs.Base.{
  ℕ, zero, suc, ◌+◌, ◌-◌, ◌*◌, ◌/◌, ◌%◌, ◌≤◌, ◌<◌, ◌≡◌, ◌≢◌, refl, sym, ap, ◌∙◌, arith, true, false,
  ◌&&◌, List, [], ◌∷◌, ltb, leb, ◌==◌, ==_iff, Bool-cases, inl, inr, if◌then◌else◌, set, drop,
  length, length-set, add32, mul32,
}
use kfs.Shell.{
  c_string, hex_char, hex_loop, shell_print_hex, dec_loop, shell_print_dec, parse_digits,
  parse_uint, parse_hex_digits, parse_hex,
}

-- A byte written in front of the string at the next place.
c_string-set :
    (i : ℕ) (buf : List ℕ) (v : ℕ)
    → i < length buf
    → v ≢ 0
    → c_string (drop i (set buf i v)) ≡ v ∷ c_string (drop (suc i) buf)
c_string-set i [] v lt ne = absurd (omega arith)
c_string-set zero (c ∷ buf) v lt ne = let nonzero : v == 0 ≡ false = ground arith in rw nonzero refl
c_string-set (suc i) (c ∷ buf) v lt ne = c_string-set i buf v (omega arith) ne

c_string_end : (i : ℕ) (buf : List ℕ) → i < length buf → c_string (drop i (set buf i 0)) ≡ []
c_string_end i [] lt = absurd (omega arith)
c_string_end zero (c ∷ buf) lt = refl
c_string_end (suc i) (c ∷ buf) lt = c_string_end i buf (omega arith)

-- The digits of a number in front of a string: at most `rounds`, and then all of `rounds`.
dec_digits : ℕ → ℕ → List ℕ → List ℕ
dec_digits zero num s = s
dec_digits (suc rounds) num s =
    let rest = dec_digits rounds (num / 10) ((48 + num % 10) ∷ s) in if ltb 0 num then rest else s

hex_digits : ℕ → ℕ → List ℕ → List ℕ
hex_digits zero num s = s
hex_digits (suc rounds) num s = hex_digits rounds (num / 16) (hex_char (num % 16) ∷ s)

dec_loop_lem :
    (i num : ℕ) (buf : List ℕ)
    → i ≤ length buf
    → c_string (drop (dec_loop i buf num).0 (dec_loop i buf num).1)
      ≡ dec_digits i num (c_string (drop i buf))
unfolding dec_loop dec_digits
dec_loop_lem zero num buf le = refl
dec_loop_lem (suc i) num buf le = elim (Bool-cases (ltb 0 num)) [
  | inr done ↦ rw done refl
  | inl more ↦ rw more (
      dec_loop_lem i (num / 10) (set buf i (48 + num % 10))
        (omega (arith, length-set buf i (48 + num % 10)))
      ∙ ap (dec_digits i (num / 10))
          (c_string-set i buf (48 + num % 10) (omega arith) (omega arith)))
]

hex_loop_lem :
    (i num : ℕ) (str : List ℕ)
    → i ≤ length str
    → c_string (hex_loop i str num) ≡ hex_digits i num (c_string (drop i str))
unfolding hex_loop hex_digits
hex_loop_lem zero num str le = refl
hex_loop_lem (suc i) num str le =
    hex_loop_lem i (num / 16) (set str i (hex_char (num % 16)))
      (omega (arith, length-set str i (hex_char (num % 16))))
    ∙ ap (hex_digits i (num / 16))
        (c_string-set i str (hex_char (num % 16)) (omega arith) (ground arith))

-- The number above all those with so many digits.
above : ℕ → ℕ → ℕ
above base zero = 1
above base (suc digits) = above base digits * base

dec_round :
    (result c : ℕ) (s : List ℕ)
    → 48 ≤ c
    → c ≤ 57
    → parse_digits result (c ∷ s) ≡ parse_digits (add32 (mul32 result 10) (c - 48)) s
unfolding parse_digits
dec_round result c s lo hi =
    let digit : (leb 48 c && leb c 57) ≡ true = ground arith in rw digit refl

parse_dec_digits :
    (rounds num : ℕ) (s : List ℕ)
    → num < above 10 rounds
    → num < 0x1_0000_0000
    → parse_digits 0 (dec_digits rounds num s) ≡ parse_digits num s
unfolding dec_digits above
parse_dec_digits zero num s few small = ap (λ n. parse_digits n s) (omega arith)
parse_dec_digits (suc rounds) num s few small = elim (Bool-cases (ltb 0 num)) [
  | inr done ↦ rw done (ap (λ n. parse_digits n s) (ground (arith, done)))
  | inl more ↦ rw more (
      parse_dec_digits rounds (num / 10) ((48 + num % 10) ∷ s) (omega arith) (omega arith)
      ∙ dec_round (num / 10) (48 + num % 10) s (omega arith) (omega arith)
      ∙ ap (λ n. parse_digits n s) (omega arith))
]

hex_round :
    (result digit : ℕ) (s : List ℕ)
    → digit < 16
    → parse_hex_digits result (hex_char digit ∷ s) ≡ parse_hex_digits (mul32 result 16 + digit) s
unfolding parse_hex_digits
hex_round result digit s lt = elim (Bool-cases (ltb digit 10)) [
  | inl low ↦
      let decimal : (leb 48 (48 + digit) && leb (48 + digit) 57) ≡ true = ground arith in
      let value : 48 + digit - 48 ≡ digit = omega arith in rw (low, decimal, value) refl
  | inr high ↦
      let decimal : (leb 48 (55 + digit) && leb (55 + digit) 57) ≡ false = ground arith in
      let lower : (leb 97 (55 + digit) && leb (55 + digit) 102) ≡ false = ground arith in
      let upper : (leb 65 (55 + digit) && leb (55 + digit) 70) ≡ true = ground arith in
      let value : 55 + digit - 65 + 10 ≡ digit = ground arith in
      rw (high, decimal, lower, upper, value) refl
]

parse_hex_printed :
    (rounds num : ℕ) (s : List ℕ)
    → num < above 16 rounds
    → num < 0x1_0000_0000
    → parse_hex_digits 0 (hex_digits rounds num s) ≡ parse_hex_digits num s
unfolding hex_digits above
parse_hex_printed zero num s few small = ap (λ n. parse_hex_digits n s) (omega arith)
parse_hex_printed (suc rounds) num s few small =
    parse_hex_printed rounds (num / 16) (hex_char (num % 16) ∷ s) (omega arith) (omega arith)
    ∙ hex_round (num / 16) (num % 16) s (omega arith)
    ∙ ap (λ n. parse_hex_digits n s) (omega arith)

above_dec : above 10 11 ≡ 100000000000
unfolding above
above_dec = refl

above_hex : above 16 8 ≡ 4294967296
unfolding above
above_hex = refl

parse_nothing : (num : ℕ) → (parse_digits num [] ≡ num) × (parse_hex_digits num [] ≡ num)
unfolding parse_digits parse_hex_digits
parse_nothing num = (refl, refl)

parse_zero : parse_digits 0 (48 ∷ []) ≡ 0
unfolding parse_digits
parse_zero = refl

-- What `shell_print_dec` writes of a 32-bit number, with whatever was in its buffer, `parse_uint`
-- reads as that number.
pub parse_uint-shell_print_dec :
    (buf : List ℕ) (num : ℕ)
    → length buf ≡ 12
    → num < 0x1_0000_0000
    → parse_uint (shell_print_dec buf num) ≡ num
unfolding shell_print_dec parse_uint
parse_uint-shell_print_dec buf num size small = elim (Bool-cases (num == 0)) [
  | inl none_left ↦ rw none_left (parse_zero ∙ sym ((==_iff num 0).0 none_left))
  | inr some_left ↦ rw some_left (
      ap (parse_digits 0) (
        dec_loop_lem 11 num (set buf 11 0) (omega (arith, size, length-set buf 11 0))
        ∙ ap (dec_digits 11 num) (c_string_end 11 buf (omega (arith, size))))
      ∙ parse_dec_digits 11 num [] (omega (arith, above_dec)) small
      ∙ (parse_nothing num).0)
]

-- What `shell_print_hex` writes of a 32-bit number, with whatever was in its buffer, `parse_hex`
-- reads as that number.
pub parse_hex-shell_print_hex :
    (str : List ℕ) (num : ℕ)
    → length str ≡ 9
    → num < 0x1_0000_0000
    → parse_hex (shell_print_hex str num) ≡ num
unfolding shell_print_hex parse_hex
parse_hex-shell_print_hex str num size small =
    ap (parse_hex_digits 0) (
      hex_loop_lem 8 num (set str 8 0) (omega (arith, size, length-set str 8 0))
      ∙ ap (hex_digits 8 num) (c_string_end 8 str (omega (arith, size))))
    ∙ parse_hex_printed 8 num [] (omega (arith, above_hex)) small
    ∙ (parse_nothing num).1
