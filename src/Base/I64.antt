-- ===== src/Base/I64.antt =====
-- Go's int on 64 bits and time.Duration: a number below 2^64, of which those from 2^63 on stand for the
-- negative ones, as in two's complement.
use Prim.Native.Nat.{ℕ, ◌+◌, ◌-◌, ◌/◌, ◌%◌}
use mathlib.Core.Bool.{Bool}
use noise_ssu.Base.Tests.{ltb, leb, if◌then◌else◌}

abbrev pub i64_half : ℕ
i64_half = 0x8000_0000_0000_0000

abbrev pub i64_mod : ℕ
i64_mod = 0x1_0000_0000_0000_0000

abbrev pub add64 : ℕ → ℕ → ℕ
add64 a b = (a + b) % i64_mod

abbrev pub sub64 : ℕ → ℕ → ℕ
sub64 a b = (a + i64_mod - b) % i64_mod

abbrev pub is_negative : ℕ → Bool
is_negative a = leb i64_half a

-- `a < b` and `a <= b` of signed numbers.
abbrev pub ltb64 : ℕ → ℕ → Bool
ltb64 a b = ltb (add64 a i64_half) (add64 b i64_half)

abbrev pub leb64 : ℕ → ℕ → Bool
leb64 a b = leb (add64 a i64_half) (add64 b i64_half)

-- `a / 2`, which rounds to 0.
abbrev pub half64 : ℕ → ℕ
half64 a = if is_negative a then sub64 0 (sub64 0 a / 2) else a / 2
