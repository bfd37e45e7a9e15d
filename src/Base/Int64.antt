-- ===== src/Base/Int64.antt =====
-- The int64 of Go: what its sums, products and quotients are where they wrap.
use Prim.Native.Nat.{◌%◌}
use node_vault.Base.{
  ℕ, zero, suc, ◌+◌, ◌-◌, ◌/◌, ◌<◌, ◌≡◌, ℤ, pos, negsuc, ltb, if◌then◌else◌, arith,
}

-- The int64 with the low 64 bits of a number.
unfoldable pub int64 : ℕ → ℤ
int64 n =
    let bits = n % 18446744073709551616 in
    if ltb bits 9223372036854775808 then pos bits else negsuc (18446744073709551615 - bits)

-- The sum of an int64 that is not negative and another one.
unfoldable pub add_int64 : ℕ → ℤ → ℤ
unfolding int64
add_int64 a (pos b) = int64 (a + b)
add_int64 a (negsuc b) = if ltb b a then pos (a - suc b) else negsuc (b - a)

abbrev pub negated : ℕ → ℤ
negated zero = pos 0
negated (suc n) = negsuc n

-- The quotient, which Go truncates toward zero.
unfoldable pub quotient : ℤ → ℕ → ℤ
quotient (pos a) k = pos (a / k)
quotient (negsuc a) k = negated (suc a / k)

abbrev pub magnitude : ℤ → ℕ
magnitude (pos n) = n
magnitude (negsuc n) = suc n

pub int64-small : (n : ℕ) → n < 9223372036854775808 → int64 n ≡ pos n
unfolding int64
int64-small n h = ground arith
