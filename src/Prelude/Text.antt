-- ===== src/Prelude/Text.antt =====
-- Texts: Python's truth test of a string or None, `+` of strings, and `str` of an integer.
use Prim.Native.Nat.{ℕ, zero, suc, ◌/◌, ◌%◌, ◌+◌, ◌*◌, ◌-◌}
use Prim.Native.Char.{Char, code}
use Prim.Native.String.{String, ◌++◌, ◌∷◌ as char_cons}
use mathlib.Core.Bool.{Bool, true, false, not, ◌&&◌, ◌||◌}
use mathlib.Core.Option.{Option, none, some}
use sakura_embyboss.Prelude.Tests.{ltb, leb, if◌then◌else◌}
use sakura_embyboss.Prelude.Int.{ℤ, pos, negsuc}
use sakura_embyboss.Prelude.Equality.{◌==◌, eq_nat, eq_string}

-- `bool(s)` for a string or None: None and "" are false.
abbrev pub truthy : Option String → Bool
truthy none = false
truthy (some s) = not (s == "")

abbrev pub str_append : String → String → String
str_append s t = s ++ t

digit : ℕ → String
digit n =
    if n == 0
    then "0"
    else if n == 1
    then "1"
    else if n == 2
    then "2"
    else if n == 3
    then "3"
    else if n == 4
    then "4"
    else if n == 5
    then "5"
    else if n == 6
    then "6"
    else if n == 7
    then "7"
    else if n == 8
    then "8"
    else "9"

-- Each round drops one digit, so `suc n` rounds are enough for `n`.
digits : ℕ → ℕ → String
digits zero n = ""
digits (suc f) n =
    let rest = digits f (n / 10) in if ltb n 10 then digit n else rest ++ digit (n % 10)

-- `str(n)`
unfoldable pub str_int : ℤ → String
unfolding digits digit
str_int (pos n) = digits (suc n) n
str_int (negsuc n) = "-" ++ digits (suc (suc n)) (suc n)

-- `len(s)`
unfoldable pub str_len : String → ℕ
str_len String.[] = 0
str_len (String.◌∷◌ c s) = suc (str_len s)

-- `s.startswith(t)`, of `t` and `s`.
unfoldable pub str_starts : String → String → Bool
str_starts String.[] s = true
str_starts (String.◌∷◌ d t) String.[] = false
str_starts (String.◌∷◌ d t) (String.◌∷◌ c s) =
    let rest = str_starts t s in if char_cons d "" == char_cons c "" then rest else false

-- `t in s`
unfoldable pub str_contains : String → String → Bool
unfolding str_starts
str_contains t String.[] = str_starts t ""
str_contains t (String.◌∷◌ c s) = str_starts t (char_cons c s) || str_contains t s

-- `s.split(c)[0]` for a separator of one character.
unfoldable pub str_before : String → String → String
str_before separator String.[] = ""
str_before separator (String.◌∷◌ c s) =
    let rest = str_before separator s in
    if char_cons c "" == separator then "" else char_cons c rest

-- `s[:n]`
unfoldable pub str_take : ℕ → String → String
str_take zero s = ""
str_take (suc n) String.[] = ""
str_take (suc n) (String.◌∷◌ c s) = char_cons c (str_take n s)

-- `c.isspace()`, of Unicode.
is_space : ℕ → Bool
is_space c =
    (leb 9 c && leb c 13)
    || (leb 28 c && leb c 32)
    || c == 133
    || c == 160
    || c == 5760
    || (leb 8192 c && leb c 8202)
    || c == 8232
    || c == 8233
    || c == 8239
    || c == 8287
    || c == 12288

strip_left : String → String
unfolding is_space
strip_left String.[] = ""
strip_left (String.◌∷◌ c s) =
    let rest = strip_left s in if is_space (code c) then rest else char_cons c s

-- A blank before the end of the text stays.
strip_cons : Char → String → String
unfolding is_space
strip_cons c s = if s == "" && is_space (code c) then "" else char_cons c s

strip_right : String → String
unfolding strip_cons
strip_right String.[] = ""
strip_right (String.◌∷◌ c s) = strip_cons c (strip_right s)

-- `s.strip()`
unfoldable pub str_strip : String → String
unfolding strip_left strip_right
str_strip s = strip_right (strip_left s)

-- `(s or "").strip() or None`
unfoldable pub stripped : Option String → Option String
unfolding str_strip
stripped none = none
stripped (some s) = let t = str_strip s in if t == "" then none else some t

upper_digit : Char → String
upper_digit c =
    if code c == 97
    then "A"
    else if code c == 98
    then "B"
    else if code c == 99
    then "C"
    else if code c == 100
    then "D"
    else if code c == 101
    then "E"
    else if code c == 102
    then "F"
    else char_cons c ""

-- `s.upper()` for hexadecimal digits.
unfoldable pub hex_upper : String → String
unfolding upper_digit
hex_upper String.[] = ""
hex_upper (String.◌∷◌ c s) = upper_digit c ++ hex_upper s

-- `s.isdigit()`, of ASCII digits.
all_digits : String → Bool
all_digits String.[] = true
all_digits (String.◌∷◌ c s) = leb 48 (code c) && leb (code c) 57 && all_digits s

unfoldable pub str_is_digit : String → Bool
unfolding all_digits
str_is_digit s = not (s == "") && all_digits s

read_digits : ℕ → String → ℕ
read_digits n String.[] = n
read_digits n (String.◌∷◌ c s) = read_digits (n * 10 + (code c - 48)) s

-- `int(s)` for a text of digits.
unfoldable pub int_str : String → ℤ
unfolding read_digits
int_str s = pos (read_digits 0 s)

-- The digits of a text as a number, if it is made of digits.
read_int : (ℕ → ℤ) → String → Option ℤ
unfolding str_is_digit read_digits
read_int sign s = if str_is_digit s then some (sign (read_digits 0 s)) else none

-- `int(s)` for a word, of ASCII digits without underscores; None is the `ValueError`.
unfoldable pub parse_int : String → Option ℤ
unfolding read_int
parse_int String.[] = none
parse_int (String.◌∷◌ c s) =
    if code c == 45
    then read_int opposite s
    else if code c == 43
    then read_int pos s
    else read_int pos (char_cons c s)
  where
    opposite : ℕ → ℤ
    opposite zero = pos 0
    opposite (suc n) = negsuc n
