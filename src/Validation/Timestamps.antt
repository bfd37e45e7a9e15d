-- ===== src/Validation/Timestamps.antt =====
-- pkg/validation/service.go: the times that the accepted milliseconds are recorded as.
use Prim.Native.Nat.{◌%◌}
use node_vault.Base.{
  ℕ, ◌+◌, ◌*◌, ◌≤◌, ◌<◌, ◌≡◌, ◌⊎◌, inl, inr, pos, Time, false, arith, ltb, leb, is_zero, Bool-cases,
}
use node_vault.Validation.{recorded_at, unix_epoch, unix_nanos}

exact :
    (n : ℕ)
    → n ≤ 9223372036854
    → unix_nanos ((n * 1000000) % 18446744073709551616) ≡ unix_epoch + n * 1000000
exact n h =
    let small : (n * 1000000) % 18446744073709551616 ≡ n * 1000000 = omega arith in
    rw small (go (n * 1000000) (omega arith))
  where
    go : (m : ℕ) → m < 9223372036854775808 → unix_nanos m ≡ unix_epoch + m
    go m k = ground (k, arith)

early :
    (n : ℕ)
    → 9223372036854 < n
    → unix_nanos ((n * 1000000) % 18446744073709551616) < unix_epoch + n * 1000000
early n h =
    go ((n * 1000000) % 18446744073709551616) (n * 1000000) (omega arith) (omega arith)
      (omega arith)
  where
    go :
        (b m : ℕ)
        → b ≤ m
        → b < 18446744073709551616
        → 9223372036854775808 ≤ m
        → unix_nanos b < unix_epoch + m
    go b m l w k = elim (Bool-cases (ltb b 9223372036854775808)) [
      | inl e ↦ rw e (let s : b < 9223372036854775808 = ground (e, arith) in omega arith)
      | inr e ↦ rw e (omega arith)
    ]

-- A time of at most 9223372036854 milliseconds, in the year 2262, is recorded exactly; every later one
-- that the range check accepts is recorded as an earlier time, as the nanoseconds overflow.
pub recorded_at-bounds :
    (now : Time) (n : ℕ)
    → 0 < n
    → n ≤ 253402300799999
    → ((n ≤ 9223372036854) × (recorded_at now (pos n) ≡ unix_epoch + n * 1000000))
      ⊎ ((9223372036854 < n) × (recorded_at now (pos n) < unix_epoch + n * 1000000))
unfolding recorded_at
recorded_at-bounds now n h k = elim (Bool-cases (leb n 9223372036854)) [
  | inl e ↦ let l : n ≤ 9223372036854 = ground (e, arith) in inl (l, rw (nonzero n h) (exact n l))
  | inr e ↦ let l : 9223372036854 < n = ground (e, arith) in inr (l, rw (nonzero n h) (early n l))
]
  where
    nonzero : (m : ℕ) → 0 < m → is_zero m ≡ false
    nonzero m l = ground (l, arith)
