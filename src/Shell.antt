-- ===== src/Shell.antt =====
-- The string helpers of kernel/src/shell.c. A string is the list of its bytes, without the zero at
-- its end; a read at the end gives that zero.
pub mod Compare
pub mod Numbers
pub mod Input
pub mod Line
mod Tests
use kfs.Base.{
  ℕ, zero, suc, ◌+◌, ◌-◌, ◌*◌, ◌/◌, ◌%◌, Bool, true, false, ◌&&◌, ◌||◌, List, [], ◌∷◌, ◌++◌, ltb,
  leb, ◌==◌, if◌then◌else◌, set, drop, get_or, add32, sub32, mul32,
}

abbrev pub first : List ℕ → ℕ
first [] = 0
first (c ∷ s) = c

-- The results are `int`s, as 32-bit patterns.
unfoldable pub strcmp : List ℕ → List ℕ → ℕ
strcmp [] t = sub32 0 (first t)
strcmp (c ∷ s) [] = c
strcmp (c ∷ s) (d ∷ t) = let rest = strcmp s t in if c == d then rest else sub32 c d

unfoldable pub strncmp : List ℕ → List ℕ → ℕ → ℕ
strncmp s t zero = 0
strncmp [] t (suc n) = sub32 0 (first t)
strncmp (c ∷ s) [] (suc n) = c
strncmp (c ∷ s) (d ∷ t) (suc n) = let rest = strncmp s t n in if c == d then rest else sub32 c d

-- The loop of `parse_uint`.
unfoldable pub parse_digits : ℕ → List ℕ → ℕ
parse_digits result [] = result
parse_digits result (c ∷ s) =
    let rest = parse_digits (add32 (mul32 result 10) (c - 48)) s in
    if leb 48 c && leb c 57 then rest else result

unfoldable pub parse_uint : List ℕ → ℕ
parse_uint s = parse_digits 0 s

-- The loop of `parse_hex`. The digit takes the place of the four bits that the shift clears.
unfoldable pub parse_hex_digits : ℕ → List ℕ → ℕ
parse_hex_digits result [] = result
parse_hex_digits result (c ∷ s) =
    let decimal = parse_hex_digits (mul32 result 16 + (c - 48)) s in
    let lower = parse_hex_digits (mul32 result 16 + (c - 97 + 10)) s in
    let upper = parse_hex_digits (mul32 result 16 + (c - 65 + 10)) s in
    if leb 48 c && leb c 57
    then decimal
    else if leb 97 c && leb c 102
    then lower
    else if leb 65 c && leb c 70
    then upper
    else result

-- 48, 120 and 88 are `0`, `x` and `X`.
unfoldable pub parse_hex : List ℕ → ℕ
parse_hex [] = parse_hex_digits 0 []
parse_hex (c ∷ []) = parse_hex_digits 0 (c ∷ [])
parse_hex (c ∷ d ∷ s) =
    if c == 48 && (d == 120 || d == 88)
    then parse_hex_digits 0 s
    else parse_hex_digits 0 (c ∷ d ∷ s)

-- What a pointer into an array is as a string.
abbrev pub c_string : List ℕ → List ℕ
c_string [] = []
c_string (c ∷ s) = if c == 0 then [] else c ∷ c_string s

-- `hex_chars[digit]`
abbrev pub hex_char : ℕ → ℕ
hex_char digit = if ltb digit 10 then 48 + digit else 55 + digit

-- The loop of `shell_print_hex`; the first argument is `i + 1`.
unfoldable pub hex_loop : ℕ → List ℕ → ℕ → List ℕ
hex_loop zero str num = str
hex_loop (suc i) str num = hex_loop i (set str i (hex_char (num % 16))) (num / 16)

-- What is written to the terminal. The array holds anything before.
unfoldable pub shell_print_hex : List ℕ → ℕ → List ℕ
shell_print_hex str num = 48 ∷ 120 ∷ c_string (hex_loop 8 (set str 8 0) num)

-- The loop of `shell_print_dec`: the first argument and the second result are `i + 1`.
unfoldable pub dec_loop : ℕ → List ℕ → ℕ → ℕ × List ℕ
dec_loop zero buf num = (0, buf)
dec_loop (suc i) buf num =
    let rest = dec_loop i (set buf i (48 + num % 10)) (num / 10) in
    if ltb 0 num then rest else (suc i, buf)

unfoldable pub shell_print_dec : List ℕ → ℕ → List ℕ
shell_print_dec buf num =
    let (start, written) = dec_loop 11 (set buf 11 0) num in
    if num == 0 then 48 ∷ [] else c_string (drop start written)
