-- ===== src/StringUtils/RoundTrip.antt =====
-- BytesToString and HexStringToInteger of lib/string_utils.cc against each other.
use rlz.Prelude.{ℕ, zero, suc, ◌≤◌, ◌<◌, ◌≡◌, true, [], ◌∷◌, some, Bytes, length, take, arith}
use rlz.StringUtils.{bytes_to_string, hex_string_to_integer}
use rlz.StringUtils.Hex.{AreBytes, pairs, big_endian, hex_string_to_integer-pairs}
use rlz.StringUtils.Fill.{bytes_to_string-pairs}

pub AreBytes-take : (n : ℕ) (source : Bytes) → AreBytes source → AreBytes (take n source)
AreBytes-take zero source h = tt
AreBytes-take (suc n) [] h = tt
AreBytes-take (suc n) (b ∷ source) h = (h.0, AreBytes-take n source h.1)

-- The text that BytesToString gives for at least one byte, with no more bytes asked for than there
-- are, is read by HexStringToInteger as the number that the bytes stand for, the first byte on
-- top, modulo 2^32.
pub hex_string_to_integer-bytes_to_string :
    (source : Bytes) (data_len : ℕ) (old text : Bytes)
    → AreBytes source
    → 0 < data_len
    → data_len ≤ length source
    → bytes_to_string (some source) data_len (some old) ≡ (true, some text)
    → hex_string_to_integer (some text) ≡ big_endian 0 (take data_len source)
hex_string_to_integer-bytes_to_string source n old text valid h k written =
    let same : pairs (take n source) ≡ text =
      ground (arith, bytes_to_string-pairs source n old valid h k) in
    rw (← same) (hex_string_to_integer-pairs (take n source) (AreBytes-take n source valid))
