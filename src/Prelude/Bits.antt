-- ===== src/Prelude/Bits.antt =====
-- `|` and `^` at variables: one equation for the lowest digit, and what the sources rely on.
use Prim.Native.Nat.{
  ℕ, zero, suc, ◌+◌, ◌*◌, ◌/◌, ◌%◌, ◌^◌, ◌≤◌, ◌<◌, max, min, bit_and, bit_or, bit_xor, digits,
  bitwise, differ, bit_and-bitwise, bit_or-bitwise, bit_xor-bitwise,
}
use mathlib.Core.Path.{◌≡◌, refl}
use native.Mathlib.Omega.{arith}
use native.Mathlib.Nat.{pow-suc}

-- More digits of fuel than the first number has make no difference.
module _ (z : ℕ → ℕ) (op : ℕ → ℕ → ℕ) where
  spare_fuel : (m n a b : ℕ) → a ≤ m → a ≤ n → digits z op m a b ≡ digits z op n a b
  spare_fuel m n zero b h k = at_zero m n
    where
      at_zero : (m n : ℕ) → digits z op m 0 b ≡ digits z op n 0 b
      at_zero zero zero = refl
      at_zero zero (suc n) = refl
      at_zero (suc m) zero = refl
      at_zero (suc m) (suc n) = refl
  spare_fuel zero n (suc a) b h k = absurd (omega arith)
  spare_fuel (suc m) zero (suc a) b h k = absurd (omega arith)
  spare_fuel (suc m) (suc n) (suc a) b h k =
      rw (spare_fuel m n (suc a / 2) (b / 2) (omega arith) (omega arith))

  low_digit :
      (a b : ℕ)
      → bitwise z op (suc a) b ≡ bitwise z op (suc a / 2) (b / 2) * 2 + op (suc a % 2) (b % 2)
  low_digit a b = rw (spare_fuel a (suc a / 2) (suc a / 2) (b / 2) (omega arith) (omega arith))

bit_or_digit : (a b : ℕ) → max (a % 2) (b % 2) + 2 * bit_or (a / 2) (b / 2) ≡ bit_or a b
bit_or_digit zero b = simp bit_or-bitwise (omega arith)
bit_or_digit (suc a) b = simp bit_or-bitwise (omega (arith, low_digit (λ bit. bit) max a b))

bit_and_digit : (a b : ℕ) → min (a % 2) (b % 2) + 2 * bit_and (a / 2) (b / 2) ≡ bit_and a b
bit_and_digit zero b = simp bit_and-bitwise (omega arith)
bit_and_digit (suc a) b = simp bit_and-bitwise (omega (arith, low_digit (λ bit. 0) min a b))

bit_xor_digit : (a b : ℕ) → differ (a % 2) (b % 2) + 2 * bit_xor (a / 2) (b / 2) ≡ bit_xor a b
bit_xor_digit zero b = simp bit_xor-bitwise (omega arith)
bit_xor_digit (suc a) b = simp bit_xor-bitwise (omega (arith, low_digit (λ bit. bit) differ a b))

bit_or-zero : (k a : ℕ) → a < 2 ^ k → bit_or a 0 ≡ a
bit_or-zero zero a h = let e : a ≡ 0 = omega arith in rw e
bit_or-zero (suc k) a h = omega (arith, bit_or_digit a 0, pow-suc 2 k, bit_or-zero k (a / 2))

lt_two_pow : (a : ℕ) → a < 2 ^ a
lt_two_pow zero = omega arith
lt_two_pow (suc a) = omega (arith, pow-suc 2 a, lt_two_pow a)

bit_and-zero : (k a : ℕ) → a < 2 ^ k → bit_and a 0 ≡ 0
bit_and-zero zero a h = let e : a ≡ 0 = omega arith in rw e
bit_and-zero (suc k) a h = omega (arith, bit_and_digit a 0, pow-suc 2 k, bit_and-zero k (a / 2))

-- A nibble of ones and a byte of ones as masks.
bit_and_nibble : (a m : ℕ) → bit_and a (m * 16 + 15) ≡ bit_and (a / 16) m * 16 + a % 16
bit_and_nibble a m =
    let quarter : a / 2 / 2 / 2 / 2 ≡ a / 16 = omega arith in
    let rest : (m * 16 + 15) / 2 / 2 / 2 / 2 ≡ m = omega arith in
    let top : bit_and (a / 2 / 2 / 2 / 2) ((m * 16 + 15) / 2 / 2 / 2 / 2) ≡ bit_and (a / 16) m =
      rw (quarter, rest) in
    omega (
      arith,
      bit_and_digit a (m * 16 + 15),
      bit_and_digit (a / 2) ((m * 16 + 15) / 2),
      bit_and_digit (a / 2 / 2) ((m * 16 + 15) / 2 / 2),
      bit_and_digit (a / 2 / 2 / 2) ((m * 16 + 15) / 2 / 2 / 2),
      top,
    )

-- `a & 0xFF` is the low byte.
pub bit_and_byte : (a : ℕ) → bit_and a 255 ≡ a % 256
bit_and_byte a = omega (
  arith,
  bit_and_nibble a 15,
  bit_and_nibble (a / 16) 0,
  bit_and-zero (a / 16 / 16) (a / 16 / 16) (lt_two_pow (a / 16 / 16)),
)

-- `(q << 4) | d` is a sum when `d` is a hexadecimal digit.
pub bit_or_nibble : (q d : ℕ) → d < 16 → bit_or (q * 16) d ≡ q * 16 + d
bit_or_nibble q d h = omega (
  arith,
  bit_or_digit (q * 16) d,
  bit_or_digit (q * 16 / 2) (d / 2),
  bit_or_digit (q * 16 / 2 / 2) (d / 2 / 2),
  bit_or_digit (q * 16 / 2 / 2 / 2) (d / 2 / 2 / 2),
  halves,
  shifted,
)
  where
    shifted : d / 2 / 2 / 2 / 2 ≡ 0
    shifted = omega arith

    halves : bit_or (q * 16 / 2 / 2 / 2 / 2) (d / 2 / 2 / 2 / 2) ≡ q
    halves =
        let e : q * 16 / 2 / 2 / 2 / 2 ≡ q = omega arith in
        rw (e, shifted) (bit_or-zero q q (lt_two_pow q))

differ_bits : (x y : ℕ) → x < 2 → y < 2 → (differ x y < 2) × (differ (differ x y) y ≡ x)
differ_bits zero zero h k = omega arith
differ_bits zero (suc zero) h k = omega arith
differ_bits (suc zero) zero h k = omega arith
differ_bits (suc zero) (suc zero) h k = omega arith
differ_bits (suc (suc x)) y h k = absurd (omega arith)
differ_bits zero (suc (suc y)) h k = absurd (omega arith)
differ_bits (suc zero) (suc (suc y)) h k = absurd (omega arith)

differ_comm : (x y : ℕ) → differ x y ≡ differ y x
differ_comm zero zero = refl
differ_comm zero (suc y) = refl
differ_comm (suc x) zero = refl
differ_comm (suc x) (suc y) = differ_comm x y

-- `^` stays within a width, and undoes itself.
pub bit_xor_width : (k a b : ℕ) → a < 2 ^ k → b < 2 ^ k → bit_xor a b < 2 ^ k
bit_xor_width zero a b h k =
    let p : a ≡ 0 = omega arith in let q : b ≡ 0 = omega arith in rw (p, q) (omega arith)
bit_xor_width (suc k) a b h h' = omega (
  arith,
  bit_xor_digit a b,
  pow-suc 2 k,
  bit_xor_width k (a / 2) (b / 2),
  differ_bits (a % 2) (b % 2),
)

pub bit_xor_undo : (k a b : ℕ) → a < 2 ^ k → b < 2 ^ k → bit_xor (bit_xor a b) b ≡ a
bit_xor_undo zero a b h k = let p : a ≡ 0 = omega arith in let q : b ≡ 0 = omega arith in rw (p, q)
bit_xor_undo (suc k) a b h h' =
    let low = differ_bits (a % 2) (b % 2) (omega arith) (omega arith) in
    let d = differ (a % 2) (b % 2) in
    let high : bit_xor a b / 2 ≡ bit_xor (a / 2) (b / 2) = omega (arith, bit_xor_digit a b, low) in
    let rest : bit_xor a b % 2 ≡ d = omega (arith, bit_xor_digit a b, low) in
    rw (← bit_xor_digit (bit_xor a b) b, high, rest)
      (omega (arith, low, pow-suc 2 k, bit_xor_undo k (a / 2) (b / 2)))

pub bit_xor_comm : (k a b : ℕ) → a < 2 ^ k → b < 2 ^ k → bit_xor a b ≡ bit_xor b a
bit_xor_comm zero a b h k = let p : a ≡ 0 = omega arith in let q : b ≡ 0 = omega arith in rw (p, q)
bit_xor_comm (suc k) a b h h' = omega (
  arith,
  bit_xor_digit a b,
  bit_xor_digit b a,
  differ_comm (a % 2) (b % 2),
  pow-suc 2 k,
  bit_xor_comm k (a / 2) (b / 2),
)
