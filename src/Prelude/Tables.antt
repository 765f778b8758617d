-- ===== src/Prelude/Tables.antt =====
-- Facts about small numbers, by a check of every value.
use Prim.Native.Nat.{ℕ, zero, suc, ◌<◌}
use mathlib.Core.Path.{◌≡◌}
use mathlib.Core.Bool.{Bool, true, ◌&&◌}
use native.Mathlib.Omega.{arith}

unfoldable pub all_below : (count : ℕ) → (ℕ → Bool) → Bool
all_below zero test = true
all_below (suc count) test = test 0 && all_below count (λ k. test (suc k))

pub all_below_sound :
    (count : ℕ) (test : ℕ → Bool) (k : ℕ) → all_below count test ≡ true → k < count → test k ≡ true
unfolding all_below
all_below_sound zero test k passed inside = absurd (omega arith)
all_below_sound (suc count) test zero passed inside = ground arith
all_below_sound (suc count) test (suc k) passed inside =
    all_below_sound count (λ j. test (suc j)) k (ground arith) (omega arith)
