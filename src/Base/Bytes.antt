-- ===== src/Base/Bytes.antt =====
-- Big-endian numbers in byte slices, as encoding/binary reads and writes them.
use Prim.Native.Nat.{ℕ, ◌+◌, ◌*◌, ◌/◌, ◌%◌, ◌<◌}
use mathlib.Core.Path.{◌≡◌}
use mathlib.Core.Option.{none, some}
use mathlib.Core.List.{List, [], ◌∷◌}
use native.Mathlib.Omega.{arith}
use golang_tools.Base.Lists.{get_elem?}

-- The byte at a place that is known to be there.
abbrev pub byte_at : List ℕ → ℕ → ℕ
byte_at bs i = elim (get_elem? bs i) [ none ↦ 0 | some b ↦ b ]

-- `binary.BigEndian.Uint16(data[i:i+2])` and `binary.BigEndian.Uint32(data[i:i+4])`
abbrev pub be16_at : List ℕ → ℕ → ℕ
be16_at bs i = byte_at bs i * 256 + byte_at bs (i + 1)

abbrev pub be32_at : List ℕ → ℕ → ℕ
be32_at bs i = be16_at bs i * 65536 + be16_at bs (i + 2)

-- The bytes that `binary.BigEndian.PutUint32` writes.
abbrev pub be32 : ℕ → List ℕ
be32 n = n / 16777216 % 256 ∷ n / 65536 % 256 ∷ n / 256 % 256 ∷ n % 256 ∷ []

pub be32_bytes :
    (n : ℕ)
    → n < 4294967296
    → (n / 16777216 % 256 * 256 + n / 65536 % 256) * 65536 + (n / 256 % 256 * 256 + n % 256) ≡ n
be32_bytes n h = omega arith
