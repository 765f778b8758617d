-- ===== src/StringUtils.antt =====
-- lib/string_utils.cc. A `char` is its byte, 0 to 255; an `int` is its 32-bit pattern. A C string is
-- the bytes before its NUL, `none` for NULL; an out-parameter is the value that it points to, `none`
-- for NULL. ASSERT_STRING only logs, and is left out.
pub mod Hex
pub mod Fill
pub mod RoundTrip
use rlz.Prelude.{
  ℕ, zero, suc, ◌+◌, ◌-◌, ◌*◌, ◌/◌, ◌%◌, ◌^◌, Bool, true, false, ◌&&◌, ◌||◌, List, [], ◌∷◌, Option,
  none, some, Bytes, bytes, ltb, leb, ◌==◌, if◌then◌else◌, get_or, set, replicate, bit_and, bit_or,
}

-- As a signed `char`, a byte from 0x80 up is negative.
unfoldable pub is_ascii : ℕ → Bool
is_ascii letter = ltb letter 0x80

unfoldable pub get_hex_value : ℕ → Option ℕ → Bool × Option ℕ
get_hex_value letter none = (false, none)
get_hex_value letter (some value) =
    if leb b'0' letter && leb letter b'9'
    then (true, some (letter - b'0'))
    else if leb b'a' letter && leb letter b'f'
    then (true, some (letter - b'a' + 0xA))
    else if leb b'A' letter && leb letter b'F'
    then (true, some (letter - b'A' + 0xA))
    else (false, some 0)

-- What a pointer that is not NULL points to.
abbrev pointee : Option ℕ → ℕ
pointee none = 0
pointee (some n) = n

skip_whitespace : Bytes → Bytes
skip_whitespace [] = []
skip_whitespace (c ∷ text) =
    let rest = skip_whitespace text in if c == 9 || c == b' ' then rest else c ∷ text

-- Past a leading "0x" or "0X".
skip_0x : Bytes → Bytes
skip_0x (a ∷ b ∷ text) = if a == b'0' && (b == b'X' || b == b'x') then text else a ∷ b ∷ text
skip_0x text = text

-- The loop over the digits. The first character that is no digit ends it; what follows only decides
-- whether an assertion is logged.
digits_loop : ℕ → Bytes → ℕ
digits_loop number [] = number
digits_loop number (c ∷ text) =
    let (is_digit, digit) = get_hex_value c (some 0) in
    let rest = digits_loop (bit_or (number * 2 ^ 4 % 2 ^ 32) (pointee digit)) text in
    if is_digit then rest else number

unfoldable pub hex_string_to_integer : Option Bytes → ℕ
unfolding skip_whitespace skip_0x digits_loop get_hex_value
hex_string_to_integer none = 0
hex_string_to_integer (some text) = digits_loop 0 (skip_0x (skip_whitespace text))

-- "0123456789ABCDEF".
abbrev hex_digits : Bytes
hex_digits = bytes "0123456789ABCDEF"

-- while (index--) { string[2 * index] = ...; string[2 * index + 1] = ...; }
fill : Bytes → ℕ → Bytes → Bytes
fill source zero string = string
fill source (suc index) string =
    let byte = get_or source index 0 in
    let high = get_or hex_digits (byte / 2 ^ 4) 0 in
    let low = get_or hex_digits (bit_and byte 0x0F) 0 in
    fill source index (set (set string (2 * index) high) (2 * index + 1) low)

-- The `data_len` bytes at `data`, which holds at least as many; `string` is the old value of *string.
unfoldable pub bytes_to_string : Option Bytes → ℕ → Option Bytes → Bool × Option Bytes
unfolding fill
bytes_to_string source data_len none = (false, none)
bytes_to_string none data_len (some string) = (false, some [])
bytes_to_string (some source) data_len (some string) =
    if ltb data_len 1
    then (false, some [])
    else (true, some (fill source data_len (replicate (data_len * 2) 0)))
