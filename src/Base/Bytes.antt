-- ===== src/Base/Bytes.antt =====
-- Bytes are numbers below 256. `binary.BigEndian` and single-byte splits, by division.
use Prim.Native.Nat.{ℕ, ◌+◌, ◌*◌, ◌/◌, ◌%◌, ◌<◌}
use mathlib.Core.Path.{◌≡◌}
use mathlib.Core.List.{List}
use native.Mathlib.Omega.{arith}
use noise_ssu.Base.Lists.{All}

abbrev pub IsByte : ℕ → Type 0
IsByte b = b < 256

abbrev pub IsBytes : List ℕ → Type 0
IsBytes bs = All IsByte bs

-- `binary.BigEndian.PutUint16` and `Uint16`.
abbrev pub hi16 : ℕ → ℕ
hi16 n = n / 256 % 256

abbrev pub lo16 : ℕ → ℕ
lo16 n = n % 256

abbrev pub uint16 : ℕ → ℕ → ℕ
uint16 a b = a * 256 + b

-- `binary.BigEndian.PutUint32` and `Uint32`.
abbrev pub byte3 : ℕ → ℕ
byte3 n = n / 16777216 % 256

abbrev pub byte2 : ℕ → ℕ
byte2 n = n / 65536 % 256

abbrev pub uint32 : ℕ → ℕ → ℕ → ℕ → ℕ
uint32 a b c d = a * 16777216 + b * 65536 + c * 256 + d

pub uint16_split : (n : ℕ) → n < 65536 → uint16 (hi16 n) (lo16 n) ≡ n
uint16_split n h = omega arith

pub uint32_split : (n : ℕ) → n < 4294967296 → uint32 (byte3 n) (byte2 n) (hi16 n) (lo16 n) ≡ n
uint32_split n h = omega arith
