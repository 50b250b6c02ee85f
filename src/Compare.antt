-- ===== src/Compare.antt =====
-- lib/compare.go: the larger and the smaller of two numbers, one function for each Go type.
use golang_tools.Base.{ℕ, ltb, if◌then◌else◌}
use golang_tools.Base.Int.{ℤ, ltb_ℤ}

abbrev pub max_uint32 : ℕ → ℕ → ℕ
max_uint32 a b = if ltb b a then a else b

abbrev pub min_uint32 : ℕ → ℕ → ℕ
min_uint32 a b = if ltb a b then a else b

abbrev pub max_int32 : ℤ → ℤ → ℤ
max_int32 a b = if ltb_ℤ b a then a else b

abbrev pub min_int32 : ℤ → ℤ → ℤ
min_int32 a b = if ltb_ℤ a b then a else b

abbrev pub max_int : ℤ → ℤ → ℤ
max_int a b = if ltb_ℤ b a then a else b

abbrev pub min_int : ℤ → ℤ → ℤ
min_int a b = if ltb_ℤ a b then a else b

abbrev pub max_int64 : ℤ → ℤ → ℤ
max_int64 a b = if ltb_ℤ b a then a else b

abbrev pub min_int64 : ℤ → ℤ → ℤ
min_int64 a b = if ltb_ℤ a b then a else b
