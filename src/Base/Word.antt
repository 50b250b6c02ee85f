-- ===== src/Base/Word.antt =====
-- Go's fixed-width integers: a uint32 is a number below 2 ^ 32, an int32 the integer it stands for.
use Prim.Native.Nat.{ℕ, ◌+◌, ◌-◌, ◌*◌, ◌%◌, ◌^◌, ◌<◌}
use mathlib.Core.Path.{◌≡◌}
use native.Mathlib.Omega.{arith}
use golang_tools.Base.Tests.{ltb, if◌then◌else◌}
use golang_tools.Base.Int.{ℤ, pos, negsuc}

abbrev pub IsU32 : ℕ → Type 0
IsU32 n = n < 2 ^ 32

-- uint32 a + b, a - b and a * b.
abbrev pub add32 : ℕ → ℕ → ℕ
add32 a b = (a + b) % 2 ^ 32

abbrev pub sub32 : ℕ → ℕ → ℕ
sub32 a b = (a + (2 ^ 32 - b % 2 ^ 32)) % 2 ^ 32

abbrev pub mul32 : ℕ → ℕ → ℕ
mul32 a b = a * b % 2 ^ 32

-- `uint32(z)` of an integer of any width.
unfoldable pub to_u32 : ℤ → ℕ
to_u32 (pos n) = n % 2 ^ 32
to_u32 (negsuc n) = 2 ^ 32 - 1 - n % 2 ^ 32

-- `int32(w)` of a uint32.
unfoldable pub signed32 : ℕ → ℤ
signed32 w = if ltb w (2 ^ 31) then pos w else negsuc (2 ^ 32 - 1 - w)

-- The int32 that a computed integer wraps to.
unfoldable pub wrap32 : ℤ → ℤ
unfolding to_u32 signed32
wrap32 z = signed32 (to_u32 z)

pub wrap32_small : (n : ℕ) → n < 2 ^ 31 → wrap32 (pos n) ≡ pos n
unfolding wrap32
wrap32_small n h = ground arith

-- `int64(z)`.
unfoldable pub wrap64 : ℤ → ℤ
wrap64 (pos n) = let w = n % 2 ^ 64 in if ltb w (2 ^ 63) then pos w else negsuc (2 ^ 64 - 1 - w)
wrap64 (negsuc n) =
    let w = 2 ^ 64 - 1 - n % 2 ^ 64 in if ltb w (2 ^ 63) then pos w else negsuc (2 ^ 64 - 1 - w)
