-- ===== src/Wire/Cast.antt =====
-- `size_t` stored in an `int64` field and read back: both have 64 bits, and a conversion keeps them.
use peerpaste.Base.{ltb, if◌then◌else◌, ℕ, ◌-◌, ◌<◌, ◌≡◌, arith}

abbrev pub size_mod : ℕ
size_mod = 18446744073709551616

-- `negative n` is -(n + 1).
pub data Int64 : Type 0 where
  nonnegative : ℕ → Int64
  negative : ℕ → Int64

unfoldable pub to_int64 : ℕ → Int64
to_int64 n = if ltb n 9223372036854775808 then nonnegative n else negative (size_mod - 1 - n)

unfoldable pub to_size : Int64 → ℕ
to_size (nonnegative n) = n
to_size (negative n) = size_mod - 1 - n

pub to_size-to_int64 : (n : ℕ) → n < size_mod → to_size (to_int64 n) ≡ n
unfolding to_size to_int64
to_size-to_int64 n h = ground arith
