-- ===== src/Base/U32.antt =====
-- Go's uint32 arithmetic: it wraps at 2^32.
use Prim.Native.Nat.{ℕ, ◌+◌, ◌-◌, ◌%◌, ◌<◌}
use mathlib.Core.Path.{◌≡◌}
use native.Mathlib.Omega.{arith}

abbrev pub u32_mod : ℕ
u32_mod = 4294967296

abbrev pub IsU32 : ℕ → Type 0
IsU32 n = n < u32_mod

abbrev pub add32 : ℕ → ℕ → ℕ
add32 a b = (a + b) % u32_mod

abbrev pub sub32 : ℕ → ℕ → ℕ
sub32 a b = (a + u32_mod - b) % u32_mod

sub32-add32 : (a b : ℕ) → IsU32 a → IsU32 b → sub32 (add32 a b) b ≡ a
sub32-add32 a b ha hb = omega arith
