-- ===== src/Base/Xor.antt =====
-- Go's `^` on unsigned integers of a given width, digit by digit.
use Prim.Native.Nat.{ℕ, zero, suc, ◌+◌, ◌*◌, ◌/◌, ◌%◌, ◌<◌}
use mathlib.Core.Path.{◌≡◌}
use native.Mathlib.Omega.{arith}

-- 2 to a power: how many numbers have that many digits.
abbrev pub span_of : ℕ → ℕ
span_of zero = 1
span_of (suc width) = span_of width * 2

-- On integers of `width` digits.
unfoldable pub xor_of : ℕ → ℕ → ℕ → ℕ
xor_of zero a b = 0
xor_of (suc width) a b = xor_of width (a / 2) (b / 2) * 2 + (a % 2 + b % 2) % 2

xor_of-lt : (width a b : ℕ) → xor_of width a b < span_of width
unfolding xor_of
xor_of-lt zero a b = omega arith
xor_of-lt (suc width) a b = omega (arith, xor_of-lt width (a / 2) (b / 2))

xor_of_twice : (width a b : ℕ) → a < span_of width → xor_of width (xor_of width a b) b ≡ a
unfolding xor_of
xor_of_twice zero a b h = omega arith
xor_of_twice (suc width) a b h =
    let above = xor_of width (a / 2) (b / 2) in
    let low = (a % 2 + b % 2) % 2 in
    let halved : (above * 2 + low) / 2 ≡ above = omega arith in
    rw halved (omega (arith, xor_of_twice width (a / 2) (b / 2) (omega arith)))

abbrev pub xor8 : ℕ → ℕ → ℕ
xor8 a b = xor_of 8 a b

abbrev pub xor16 : ℕ → ℕ → ℕ
xor16 a b = xor_of 16 a b

pub xor8-lt : (a b : ℕ) → xor8 a b < 256
xor8-lt a b = xor_of-lt 8 a b

pub xor16-lt : (a b : ℕ) → xor16 a b < 65536
xor16-lt a b = xor_of-lt 16 a b

pub xor8_twice : (a b : ℕ) → a < 256 → xor8 (xor8 a b) b ≡ a
xor8_twice a b h = xor_of_twice 8 a b h

pub xor16_twice : (a b : ℕ) → a < 65536 → xor16 (xor16 a b) b ≡ a
xor16_twice a b h = xor_of_twice 16 a b h
