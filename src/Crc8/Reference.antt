-- ===== src/Crc8/Reference.antt =====
-- The table of lib/crc8.cc against the bitwise definition of the CRC.
use rlz.Prelude.{
  ℕ, ◌*◌, ◌%◌, ◌<◌, ◌≡◌, refl, ◌∙◌, true, [], ◌∷◌, some, Bytes, ltb, ◌==◌, ==_iff, if◌then◌else◌,
  get_or, take, bit_and, bit_xor, arith, all_below, all_below_sound, bit_xor_width, bit_xor_comm,
}
use rlz.StringUtils.Hex.{AreBytes}
use rlz.StringUtils.RoundTrip.{AreBytes-take}
use rlz.Crc8.{crc_table, next_crc, crc_loop, generate}

-- One bit of the division by x^8 + x^2 + x + 1 (0x07), the top bit first.
pub shift_bit : ℕ → ℕ
shift_bit crc = if ltb crc 128 then crc * 2 else bit_xor (crc * 2 % 256) 0x07

unfoldable pub shift_byte : ℕ → ℕ
unfolding shift_bit
shift_byte crc =
    shift_bit
      (shift_bit (shift_bit (shift_bit (shift_bit (shift_bit (shift_bit (shift_bit crc)))))))

-- The CRC with no table: each byte is added into the register, which is shifted by eight bits.
pub bitwise_crc : ℕ → Bytes → ℕ
bitwise_crc crc [] = crc
bitwise_crc crc (b ∷ rest) = bitwise_crc (shift_byte (bit_xor crc b)) rest

mask_table : all_below 256 (λ x. bit_and x 255 == x) ≡ true
unfolding all_below
mask_table = refl

-- On a byte the mask 0xFF does nothing.
pub mask_byte : (x : ℕ) → x < 256 → bit_and x 255 ≡ x
mask_byte x h = (==_iff _ x).0 (all_below_sound 256 _ x mask_table h)

table_table : all_below 256 (λ x. get_or crc_table x 0 == shift_byte x) ≡ true
unfolding all_below crc_table shift_byte
table_table = refl

crc_table-shift_byte : (x : ℕ) → x < 256 → get_or crc_table x 0 ≡ shift_byte x
crc_table-shift_byte x h = (==_iff _ _).0 (all_below_sound 256 _ x table_table h)

range_table : all_below 256 (λ x. ltb (shift_byte x) 256) ≡ true
unfolding all_below shift_byte
range_table = refl

shift_byte-lt : (x : ℕ) → x < 256 → shift_byte x < 256
shift_byte-lt x h =
    ground (arith, all_below_sound 256 (λ x. ltb (shift_byte x) 256) x range_table h)

pub next_crc-shift_byte :
    (crc b : ℕ) → crc < 256 → b < 256 → next_crc crc b ≡ shift_byte (bit_xor crc b)
unfolding next_crc
next_crc-shift_byte crc b h k =
    rw (bit_xor_comm 8 b crc k h, mask_byte (bit_xor crc b) (bit_xor_width 8 crc b h k))
      (crc_table-shift_byte (bit_xor crc b) (bit_xor_width 8 crc b h k))

pub next_crc-lt : (crc b : ℕ) → crc < 256 → b < 256 → next_crc crc b < 256
next_crc-lt crc b h k =
    rw (next_crc-shift_byte crc b h k) (shift_byte-lt (bit_xor crc b) (bit_xor_width 8 crc b h k))

pub crc_loop-bitwise :
    (crc : ℕ) (source : Bytes)
    → crc < 256
    → AreBytes source
    → crc_loop crc source ≡ bitwise_crc crc source
unfolding crc_loop bitwise_crc
crc_loop-bitwise crc [] h k = refl
crc_loop-bitwise crc (b ∷ rest) h k =
    crc_loop-bitwise (next_crc crc b) rest (next_crc-lt crc b h k.0) k.1
    ∙ rw (next_crc-shift_byte crc b h k.0)

-- Generate writes the CRC of the first `length` bytes that the bitwise division by 0x07 gives from
-- a register of 0, exclusive-or 0x55, for bytes in range.
pub generate-bitwise :
    (source : Bytes) (length old : ℕ)
    → AreBytes source
    → generate (some source) length (some old)
      ≡ (true, some (bit_xor (bitwise_crc 0 (take length source)) 0x55))
unfolding generate
generate-bitwise source length old h =
    rw (crc_loop-bitwise 0 (take length source) (omega arith) (AreBytes-take length source h))
