-- ===== src/Int64.antt =====
-- Go's int64: integers from -2^63 to 2^63 - 1, with sums and differences that wrap around.
use streamledger.Prelude.{
  ℕ, suc, ◌-◌, ◌%◌, ◌^◌, ◌≤◌, ◌<◌, ◌≡◌, arith, ltb, if◌then◌else◌, ℤ, pos, negsuc, pos_part,
  neg_part, ◌+ℤ◌, ◌-ℤ◌, ◌≤ℤ◌, ◌<ℤ◌,
}

-- The 64 bits of an integer in two's complement.
abbrev pub bits64 : ℤ → ℕ
bits64 (pos n) = n % 2 ^ 64
bits64 (negsuc n) = 2 ^ 64 - 1 - n % 2 ^ 64

-- The int64 that 64 bits stand for.
abbrev pub signed64 : ℕ → ℤ
signed64 w = if ltb w (2 ^ 63) then pos w else negsuc (2 ^ 64 - w - 1)

unfoldable pub wrap64 : ℤ → ℤ
wrap64 z = signed64 (bits64 z)

abbrev pub IsInt64 : ℤ → Type 0
IsInt64 z = (pos_part z < 2 ^ 63) × (neg_part z ≤ 2 ^ 63)

unfoldable pub add64 : ℤ → ℤ → ℤ
add64 a b = wrap64 (a +ℤ b)

unfoldable pub sub64 : ℤ → ℤ → ℤ
sub64 a b = wrap64 (a -ℤ b)

pub wrap64-IsInt64 : (z : ℤ) → IsInt64 (wrap64 z)
unfolding wrap64
wrap64-IsInt64 z = ground arith

pub wrap64_of_IsInt64 : (z : ℤ) → IsInt64 z → wrap64 z ≡ z
unfolding wrap64
wrap64_of_IsInt64 z h = ground arith

pub add64_exact : (a b : ℤ) → IsInt64 (a +ℤ b) → add64 a b ≡ a +ℤ b
unfolding add64
add64_exact a b h = wrap64_of_IsInt64 _ h

pub sub64_exact : (a b : ℤ) → IsInt64 (a -ℤ b) → sub64 a b ≡ a -ℤ b
unfolding sub64
sub64_exact a b h = wrap64_of_IsInt64 _ h

-- A counter that started at 0 and was incremented n times.
unfoldable pub int64 : ℕ → ℤ
int64 n = wrap64 (pos n)

pub int64-pos : (n : ℕ) → n < 2 ^ 63 → int64 n ≡ pos n
unfolding int64 wrap64
int64-pos n h = ground arith

pub inc64-int64 : (n : ℕ) → add64 (int64 n) (pos 1) ≡ int64 (suc n)
unfolding int64 add64 wrap64 ◌+ℤ◌
inc64-int64 n = ground arith

pub int64_injective : (m n : ℕ) → m < 2 ^ 63 → n < 2 ^ 63 → int64 m ≡ int64 n → m ≡ n
unfolding int64 wrap64
int64_injective m n h k e = ground arith

-- Part of an amount that is not negative fits, and so does what is left of it.
pub IsInt64-sub :
    (a b : ℤ) → IsInt64 a → pos 0 ≤ℤ b → b ≤ℤ a → IsInt64 b × IsInt64 (a -ℤ b) × (pos 0 ≤ℤ a -ℤ b)
unfolding ◌-ℤ◌
IsInt64-sub a b h p q = ground arith

-- A sum above the range comes out negative, and below it not negative.
pub add64_overflow : (a b : ℤ) → IsInt64 a → IsInt64 b → pos (2 ^ 63) ≤ℤ a +ℤ b → add64 a b <ℤ pos 0
unfolding add64 wrap64 ◌+ℤ◌
add64_overflow a b h k o = ground arith

-- Adding a negative number to one that is not negative cannot overflow.
pub IsInt64-add_neg : (a b : ℤ) → IsInt64 a → pos 0 ≤ℤ a → IsInt64 b → b ≤ℤ pos 0 → IsInt64 (a +ℤ b)
unfolding ◌+ℤ◌
IsInt64-add_neg a b h p k q = ground arith
