-- ===== src/Base/Bits.antt =====
-- The bitwise "or" and "exclusive or" of words.
use mathlib.Core.Path.{◌≡◌}
use Prim.Native.Nat.{ℕ, zero, suc, ◌+◌, ◌*◌, ◌/◌, ◌%◌, ◌^◌, ◌<◌}
use native.Mathlib.Omega.{arith}
use gtnh_platform.Base.Tests.{◌==◌, if◌then◌else◌}

-- `a | b` of two words of `n` bits.
unfoldable pub or_bits : ℕ → ℕ → ℕ → ℕ
or_bits zero a b = 0
or_bits (suc n) a b = (if a % 2 + b % 2 == 0 then 0 else 1) + 2 * or_bits n (a / 2) (b / 2)

-- `a ^ b`
unfoldable pub xor_bits : ℕ → ℕ → ℕ → ℕ
xor_bits zero a b = 0
xor_bits (suc n) a b = (a % 2 + b % 2) % 2 + 2 * xor_bits n (a / 2) (b / 2)

pub or_bits-zero_left : (n b : ℕ) → b < 2 ^ n → or_bits n 0 b ≡ b
unfolding or_bits
or_bits-zero_left zero b h = omega arith
or_bits-zero_left (suc n) b h = ground (arith, or_bits-zero_left n (b / 2))

pub or_bits-zero_right : (n a : ℕ) → a < 2 ^ n → or_bits n a 0 ≡ a
unfolding or_bits
or_bits-zero_right zero a h = omega arith
or_bits-zero_right (suc n) a h = ground (arith, or_bits-zero_right n (a / 2))
