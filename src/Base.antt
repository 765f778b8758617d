-- ===== src/Base.antt =====
-- What the library takes from Chromium's base/ and from zlib, which are not in the repository: the
-- functions as parameters, and the documented behaviour that the proofs rely on.
pub mod Sample
use rlz.Prelude.{
  false, true, not, all, ℕ, ◌≡◌, Bool, List, [], ◌∷◌, ◌++◌, ◌&&◌, ◌||◌, Bytes, has_prefix, has_byte,
  leb, length,
}

pub record Base : Type 0 where
  -- IsAsciiAlpha and IsAsciiDigit of base/string_util.h
  pub is_ascii_alpha : ℕ → Bool
  pub is_ascii_digit : ℕ → Bool
  -- TrimWhitespaceASCII with TRIM_LEADING and with TRIM_ALL
  pub trim_leading : Bytes → Bytes
  pub trim_all : Bytes → Bytes
  -- StartsWithASCII(str, search, true)
  pub starts_with_ascii : Bytes → Bytes → Bool
  -- base::SplitString: the trimmed tokens between the separators
  pub split_string : Bytes → ℕ → List Bytes
  -- crc32(crc, buf, len) of zlib, over a list of `len` bytes; a result is a 32-bit pattern
  pub crc32 : ℕ → Bytes → ℕ
  -- base::SHA1HashString
  pub sha1_hash_string : Bytes → Bytes

-- kWhitespaceASCII.
abbrev pub is_whitespace : ℕ → Bool
is_whitespace c = has_byte (9 ∷ 10 ∷ 11 ∷ 12 ∷ 13 ∷ 32 ∷ []) c

pub record BaseLaws (base : Base) : Type 0 where
  pub alpha :
      (c : ℕ) → base.is_ascii_alpha c ≡ (leb b'a' c && leb c b'z' || leb b'A' c && leb c b'Z')
  pub digit : (c : ℕ) → base.is_ascii_digit c ≡ (leb b'0' c && leb c b'9')
  pub starts_with : (str search : Bytes) → base.starts_with_ascii str search ≡ has_prefix search str
  -- What begins with no whitespace is left as it is.
  pub trim_leading_none :
      (c : ℕ) (s : Bytes) → is_whitespace c ≡ false → base.trim_leading (c ∷ s) ≡ c ∷ s
  -- Whitespace at the end goes.
  pub trim_all_end :
      (s t : Bytes)
      → all (λ c. not (is_whitespace c)) s ≡ true
      → all is_whitespace t ≡ true
      → base.trim_all (s ++ t) ≡ s
  pub trim_leading_empty : base.trim_leading [] ≡ []
  -- zlib updates a running checksum.
  pub crc32_empty : (crc : ℕ) → base.crc32 crc [] ≡ crc
  pub crc32_append :
      (crc : ℕ) (s t : Bytes) → base.crc32 (base.crc32 crc s) t ≡ base.crc32 crc (s ++ t)
  -- base::kSHA1Length
  pub sha1_length : (s : Bytes) → length (base.sha1_hash_string s) ≡ 20
