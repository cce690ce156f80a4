-- ===== src/Strtoul.antt =====
-- `strtoul(text, &end, 0)` and `strtoul(text, &end, 10)` of the C library, in the C locale and with 64-bit longs: blanks, a sign, a
-- base that the prefix tells, and digits. A number that does not fit is ULONG_MAX.
use kuangshi16pro_series_gm.Prelude.{
  ℕ, ◌+◌, ◌-◌, ◌*◌, ◌%◌, Bool, true, false, ◌&&◌, ◌||◌, Option, none, some, [], ◌∷◌, ltb, leb, ◌==◌,
  if◌then◌else◌,
}
use kuangshi16pro_series_gm.Text.{Text}
use kuangshi16pro_series_gm.Scan.{skip_space}

-- ULONG_MAX + 1
abbrev pub ulong_mod : ℕ
ulong_mod = 18446744073709551616

-- The value of a digit or letter; 36 where it is neither.
unfoldable pub digit_value : ℕ → ℕ
digit_value c =
    if leb b'0' c && leb c b'9'
    then c - b'0'
    else if leb b'A' c && leb c b'Z'
    then c - b'A' + 10
    else if leb b'a' c && leb c b'z'
    then c - b'a' + 10
    else 36

-- The digits of a base at the front of a text, onto a value, with what is left.
unfoldable pub scan_digits : ℕ → ℕ → Text → ℕ × Text
scan_digits base acc [] = (acc, [])
scan_digits base acc (c ∷ cs) =
    let rest = scan_digits base (acc * base + digit_value c) cs in
    if ltb (digit_value c) base then rest else (acc, c ∷ cs)

abbrev starts_digit : ℕ → Text → Bool
starts_digit base [] = false
starts_digit base (c ∷ _) = ltb (digit_value c) base

-- The base of a text after its sign, and the text after the prefix 0x. That prefix counts only before a
-- digit; a number that starts with 0 is octal, its 0 a digit.
unfoldable pub split_base : Text → ℕ × Text
split_base [] = (10, [])
split_base (c ∷ []) = (if c == b'0' then 8 else 10, c ∷ [])
split_base (c ∷ x ∷ ds) =
    if c == b'0'
    then if (x == b'x' || x == b'X') && starts_digit 16 ds then (16, ds) else (8, c ∷ x ∷ ds)
    else (10, c ∷ x ∷ ds)

abbrev split_sign : Text → Bool × Text
split_sign [] = (false, [])
split_sign (c ∷ cs) =
    if c == b'-' then (true, cs) else if c == b'+' then (false, cs) else (false, c ∷ cs)

abbrev signed : Bool → ℕ → ℕ
signed negative n =
    if leb ulong_mod n then ulong_mod - 1 else if negative then (ulong_mod - n) % ulong_mod else n

-- The value and the text at `end`; none where `end` is the start of the text.
unfoldable pub strtoul : Text → Option (ℕ × Text)
strtoul text =
    let (negative, body) = split_sign (skip_space text) in
    let (base, digits) = split_base body in
    let (n, rest) = scan_digits base 0 digits in
    if starts_digit base digits then some (signed negative n, rest) else none

-- `strtoul(text, &end, 10)`
unfoldable pub strtoul10 : Text → Option (ℕ × Text)
strtoul10 text =
    let (negative, digits) = split_sign (skip_space text) in
    let (n, rest) = scan_digits 10 0 digits in
    if starts_digit 10 digits then some (signed negative n, rest) else none
