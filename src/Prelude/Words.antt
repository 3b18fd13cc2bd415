-- ===== src/Prelude/Words.antt =====
-- Machine integers: 64-bit unsigned sums, and the signed reading of a 64-bit pattern.
use Prim.Native.Nat.{ℕ, ◌+◌, ◌-◌, ◌%◌}
use anyhttp.Prelude.Tests.{ltb, if◌then◌else◌}

abbrev pub u64_mod : ℕ
u64_mod = 18446744073709551616

abbrev pub i64_mod : ℕ
i64_mod = 9223372036854775808

-- a + b on uint64_t.
abbrev pub add64 : ℕ → ℕ → ℕ
add64 a b = (a + b) % u64_mod

-- a - b on uint64_t.
abbrev pub sub64 : ℕ → ℕ → ℕ
sub64 a b = (a + u64_mod - b) % u64_mod

-- `negsuc n` is -(n + 1).
pub data ℤ : Type 0 where
  pos : ℕ → ℤ
  negsuc : ℕ → ℤ

-- The conversion of a uint64_t to an int64_t, modulo 2^64.
unfoldable pub to_int64 : ℕ → ℤ
to_int64 n = if ltb n i64_mod then pos n else negsuc (u64_mod - 1 - n)
