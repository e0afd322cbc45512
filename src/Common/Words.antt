-- ===== src/Common/Words.antt =====
-- Bytes, and the big-endian words of `to_be_bytes` and `from_be_bytes`.
use Prim.Native.Nat.{ℕ, ◌+◌, ◌*◌, ◌/◌, ◌%◌, ◌<◌}
use mathlib.Core.Path.{◌≡◌}
use mathlib.Core.List.{List, [], ◌∷◌}
use native.Mathlib.Omega.{arith}

-- `(n as u16)`, `(n as u32)`
abbrev pub u16 : ℕ → ℕ
u16 n = n % 65536

abbrev pub u32 : ℕ → ℕ
u32 n = n % 4294967296

abbrev pub u16_be_bytes : ℕ → List ℕ
u16_be_bytes n = (n / 256 % 256) ∷ (n % 256) ∷ []

abbrev pub u32_be_bytes : ℕ → List ℕ
u32_be_bytes n = (n / 16777216 % 256) ∷ (n / 65536 % 256) ∷ (n / 256 % 256) ∷ (n % 256) ∷ []

abbrev pub u16_from_be : ℕ → ℕ → ℕ
u16_from_be a b = a * 256 + b

abbrev pub u32_from_be : ℕ → ℕ → ℕ → ℕ → ℕ
u32_from_be a b c d = a * 16777216 + b * 65536 + c * 256 + d

pub u16_round_trip : (n : ℕ) → n < 65536 → u16_from_be (n / 256 % 256) (n % 256) ≡ n
u16_round_trip n h = omega arith

pub u32_round_trip :
    (n : ℕ)
    → n < 4294967296
    → u32_from_be (n / 16777216 % 256) (n / 65536 % 256) (n / 256 % 256) (n % 256) ≡ n
u32_round_trip n h = omega arith
