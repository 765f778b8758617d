-- ===== src/Crc8/Detection.antt =====
-- What the checksum of lib/crc8.cc detects.
use rlz.Prelude.{
  take, ℕ, zero, suc, ◌+◌, ◌<◌, ◌≡◌, ◌≢◌, refl, ap, sym, ◌∙◌, Bool, true, false, [], ◌∷◌, ◌++◌,
  some, Bytes, ◌==◌, ==_iff, ==_refl, if◌then◌else◌, take_all, length, length-append, bit_xor,
  arith, all_below, all_below_sound, bit_xor_width, bit_xor_comm, bit_xor_undo,
}
use rlz.StringUtils.Hex.{AreBytes}
use rlz.Crc8.{next_crc, crc_loop, generate, verify}
use rlz.Crc8.Reference.{shift_byte, next_crc-shift_byte, next_crc-lt}

-- The eight shifts run backwards: found by the table's inverse.
unshift : ℕ → ℕ
unshift y = least 256
  where
    least : ℕ → ℕ
    least zero = 0
    least (suc n) = if shift_byte n == y then n else least n

unshift_table : all_below 256 (λ x. unshift (shift_byte x) == x) ≡ true
unfolding all_below unshift shift_byte
unshift_table = refl

shift_byte_injective : (x y : ℕ) → x < 256 → y < 256 → shift_byte x ≡ shift_byte y → x ≡ y
shift_byte_injective x y h k e =
    sym ((==_iff _ x).0 (all_below_sound 256 _ x unshift_table h))
    ∙ ap unshift e
    ∙ (==_iff _ y).0 (all_below_sound 256 _ y unshift_table k)

bit_xor_injective :
    (a a' b : ℕ) → a < 256 → a' < 256 → b < 256 → bit_xor a b ≡ bit_xor a' b → a ≡ a'
bit_xor_injective a a' b h h' k e =
    sym (bit_xor_undo 8 a b h k) ∙ ap (λ (t : ℕ). bit_xor t b) e ∙ bit_xor_undo 8 a' b h' k

next_crc_injective_crc :
    (crc crc' b : ℕ)
    → crc < 256
    → crc' < 256
    → b < 256
    → next_crc crc b ≡ next_crc crc' b
    → crc ≡ crc'
next_crc_injective_crc crc crc' b h h' k e = bit_xor_injective crc crc' b h h' k (
    shift_byte_injective _ _ (bit_xor_width 8 crc b h k) (bit_xor_width 8 crc' b h' k)
      (sym (next_crc-shift_byte crc b h k) ∙ e ∙ next_crc-shift_byte crc' b h' k))

next_crc_injective_byte :
    (crc b b' : ℕ) → crc < 256 → b < 256 → b' < 256 → next_crc crc b ≡ next_crc crc b' → b ≡ b'
next_crc_injective_byte crc b b' h k k' e = bit_xor_injective b b' crc k k' h (
    sym (bit_xor_comm 8 crc b h k)
    ∙ shift_byte_injective _ _ (bit_xor_width 8 crc b h k) (bit_xor_width 8 crc b' h k')
        (sym (next_crc-shift_byte crc b h k) ∙ e ∙ next_crc-shift_byte crc b' h k')
    ∙ bit_xor_comm 8 crc b' h k')

-- Two registers that differ stay apart over the same bytes.
crc_loop_injective :
    (crc crc' : ℕ) (source : Bytes)
    → crc < 256
    → crc' < 256
    → AreBytes source
    → crc_loop crc source ≡ crc_loop crc' source
    → crc ≡ crc'
unfolding crc_loop
crc_loop_injective crc crc' [] h h' k e = e
crc_loop_injective crc crc' (b ∷ rest) h h' k e = next_crc_injective_crc crc crc' b h h' k.0 (
    crc_loop_injective (next_crc crc b) (next_crc crc' b) rest (next_crc-lt crc b h k.0)
      (next_crc-lt crc' b h' k.0) k.1 e)

crc_loop_one_byte :
    (crc : ℕ) (before : Bytes) (b b' : ℕ) (after : Bytes)
    → crc < 256
    → AreBytes before
    → b < 256
    → b' < 256
    → AreBytes after
    → crc_loop crc (before ++ b ∷ after) ≡ crc_loop crc (before ++ b' ∷ after)
    → b ≡ b'
unfolding crc_loop
crc_loop_one_byte crc [] b b' after h v k k' w e = next_crc_injective_byte crc b b' h k k' (
    crc_loop_injective (next_crc crc b) (next_crc crc b') after (next_crc-lt crc b h k)
      (next_crc-lt crc b' h k') w e)
crc_loop_one_byte crc (a ∷ before) b b' after h v k k' w e =
    crc_loop_one_byte (next_crc crc a) before b b' after (next_crc-lt crc a h v.0) v.1 k k' w e

crc_loop-lt : (crc : ℕ) (source : Bytes) → crc < 256 → AreBytes source → crc_loop crc source < 256
unfolding crc_loop
crc_loop-lt crc [] h k = h
crc_loop-lt crc (b ∷ rest) h k = crc_loop-lt (next_crc crc b) rest (next_crc-lt crc b h k.0) k.1

-- Verify accepts the checksum that Generate wrote for the same bytes.
pub verify-generate :
    (source : Bytes) (n c old : ℕ) (matches : Bool)
    → generate (some source) n (some old) ≡ (true, some c)
    → verify (some source) n c (some matches) ≡ (true, some true)
unfolding verify generate
verify-generate source n c old matches h = ground (arith, ==_refl c)

-- The checksum exclusive-or 0x55 of two different registers differs.
sums_differ :
    (crc crc' : ℕ)
    → crc < 256
    → crc' < 256
    → crc ≢ crc'
    → (bit_xor crc 0x55 == bit_xor crc' 0x55) ≡ false
sums_differ crc crc' h k ne = ground (
  arith,
  λ (e : bit_xor crc 0x55 ≡ bit_xor crc' 0x55).
      ne (bit_xor_injective crc crc' 0x55 h k (omega arith) e),
)

AreBytes-append :
    (xs : Bytes) (b : ℕ) (ys : Bytes)
    → AreBytes xs
    → b < 256
    → AreBytes ys
    → AreBytes (xs ++ b ∷ ys)
AreBytes-append [] b ys h k w = (k, w)
AreBytes-append (x ∷ xs) b ys h k w = (h.0, AreBytes-append xs b ys h.1 k w)

-- A message in which one byte was changed to another, at any place, fails Verify against the
-- checksum that Generate wrote for the whole original.
pub verify_changed_byte :
    (before after : Bytes) (b b' n c old : ℕ) (matches : Bool)
    → AreBytes before
    → AreBytes after
    → b < 256
    → b' < 256
    → b ≢ b'
    → n ≡ length before + suc (length after)
    → generate (some (before ++ b ∷ after)) n (some old) ≡ (true, some c)
    → verify (some (before ++ b' ∷ after)) n c (some matches) ≡ (true, some false)
unfolding verify generate
verify_changed_byte before after b b' n c old matches v w h h' ne e g =
    let whole =
      take_all n (before ++ b ∷ after) (omega (arith, length-append before (b ∷ after))) in
    let whole' =
      take_all n (before ++ b' ∷ after) (omega (arith, length-append before (b' ∷ after))) in
    let apart =
      sums_differ (crc_loop 0 (before ++ b ∷ after)) (crc_loop 0 (before ++ b' ∷ after))
        (crc_loop-lt 0 _ (omega arith) (AreBytes-append before b after v h w))
        (crc_loop-lt 0 _ (omega arith) (AreBytes-append before b' after v h' w))
        (λ same. ne (crc_loop_one_byte 0 before b b' after (omega arith) v h h' w same)) in
    ground (arith, whole, whole', apart)

-- Generate writes a byte.
pub checksum-lt :
    (source : Bytes) (n c old : ℕ)
    → AreBytes (take n source)
    → generate (some source) n (some old) ≡ (true, some c)
    → c < 256
unfolding generate
checksum-lt source n c old valid h =
    let loop = crc_loop-lt 0 (take n source) (omega arith) valid in
    let bound = bit_xor_width 8 (crc_loop 0 (take n source)) 0x55 loop (omega arith) in ground arith
