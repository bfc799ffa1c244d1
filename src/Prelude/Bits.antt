-- ===== src/Prelude/Bits.antt =====
-- Single bits of a machine word: tests, writes and right shifts, by recursion on the position.
use Prim.Native.Nat.{ℕ, zero, suc, ◌+◌, ◌*◌, ◌/◌, ◌%◌, ◌^◌, ◌<◌}
use mathlib.Core.Path.{◌≡◌, refl}
use mathlib.Core.Bool.{Bool, false, ◌||◌}
use native.Mathlib.Nat.{pow-suc}
use native.Mathlib.Omega.{arith}
use promql_engine.Prelude.Tests.{◌==◌}

-- m & (1 << k) != 0.
unfoldable pub test_bit : ℕ → ℕ → Bool
test_bit m zero = m % 2 == 1
test_bit m (suc k) = test_bit (m / 2) k

-- m | (1 << k).
unfoldable pub set_bit : ℕ → ℕ → ℕ
set_bit m zero = m / 2 * 2 + 1
set_bit m (suc k) = set_bit (m / 2) k * 2 + m % 2

-- m >> s.
unfoldable pub shift_right : ℕ → ℕ → ℕ
shift_right m zero = m
shift_right m (suc s) = shift_right (m / 2) s

pub test_bit-set_bit : (m k j : ℕ) → test_bit (set_bit m k) j ≡ (k == j || test_bit m j)
unfolding test_bit set_bit
test_bit-set_bit m zero zero = ground arith
test_bit-set_bit m zero (suc j) =
    let e : (m / 2 * 2 + 1) / 2 ≡ m / 2 = omega arith in rw e (ground arith)
test_bit-set_bit m (suc k) zero = ground arith
test_bit-set_bit m (suc k) (suc j) =
    let e : (set_bit (m / 2) k * 2 + m % 2) / 2 ≡ set_bit (m / 2) k = omega arith in
    rw e (ground (arith, test_bit-set_bit (m / 2) k j))

pub test_bit-shift_right : (m s j : ℕ) → test_bit (shift_right m s) j ≡ test_bit m (s + j)
unfolding test_bit shift_right
test_bit-shift_right m zero j = let e : 0 + j ≡ j = omega arith in rw e refl
test_bit-shift_right m (suc s) j =
    let e : suc s + j ≡ suc (s + j) = omega arith in rw e (test_bit-shift_right (m / 2) s j)

-- A write to a 64-bit word below its width stays inside the word, and so does a shift.
pub set_bit_bound : (m k w : ℕ) → m < 2 ^ w → k < w → set_bit m k < 2 ^ w
unfolding set_bit
set_bit_bound m k zero h lt = absurd (omega arith)
set_bit_bound m zero (suc w) h lt = omega (arith, pow-suc 2 w)
set_bit_bound m (suc k) (suc w) h lt =
    let half : m / 2 < 2 ^ w = omega (arith, pow-suc 2 w) in
    omega (arith, pow-suc 2 w, set_bit_bound (m / 2) k w half (omega arith))

pub test_bit-zero : (j : ℕ) → test_bit 0 j ≡ false
unfolding test_bit
test_bit-zero zero = refl
test_bit-zero (suc j) = test_bit-zero j
