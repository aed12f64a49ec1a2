-- ===== src/Base/Int.antt =====
-- Integers over the native numbers, and the 64-bit cast of an unsigned word.
use Prim.Native.Nat.{ℕ, ◌+◌, ◌-◌, ◌^◌}
use sintra.Base.Tests.{ltb, leb, if◌then◌else◌}

-- `negsuc n` is -(n + 1).
pub data ℤ : Type 0 where
  pos : ℕ → ℤ
  negsuc : ℕ → ℤ

-- a - b, as an integer.
abbrev pub sub_ℕ : ℕ → ℕ → ℤ
sub_ℕ a b = if leb b a then pos (a - b) else negsuc (b - a - 1)

-- x - n for an integer x.
abbrev pub sub_nat : ℤ → ℕ → ℤ
sub_nat (pos a) n = sub_ℕ a n
sub_nat (negsuc a) n = negsuc (a + n)

-- `int64_t(word)`
abbrev pub to_i64 : ℕ → ℤ
to_i64 w = if ltb w (2 ^ 63) then pos w else negsuc (2 ^ 64 - w - 1)

infixl 65 ◌-ℤ◌
abbrev pub ◌-ℤ◌ : ℤ → ℤ → ℤ
a -ℤ pos n = sub_nat a n
pos a -ℤ negsuc n = pos (a + n + 1)
negsuc a -ℤ negsuc n = sub_ℕ n a

-- `max(0, a)`
abbrev pub pos_part : ℤ → ℕ
pos_part (pos n) = n
pos_part (negsuc n) = 0
