-- ===== src/Reconcile/Enqueue/Backoff.antt =====
-- pkg/reconcile/enqueue.go, withDefaults and backoff: bounds on the time that is waited.
use node_vault.Base.{
  ℕ, zero, suc, ◌+◌, ◌-◌, ◌*◌, ◌/◌, ◌≤◌, ◌<◌, ◌≡◌, refl, true, false, arith, leb, ◌⊎◌, Bool-cases,
  inl, inr, ℤ, pos, negsuc, ltb,
}
use node_vault.Base.Int64.{add_int64, magnitude, int64-small}
use node_vault.Reconcile.Enqueue.{
  EnqueueRetryConfig, grow, doubled, capped, delay, backoff, not_negative, with_defaults, at_least,
  positive_or, seconds,
}

-- What the delays would be without a limit.
abbrev pub exponential : ℕ → ℕ → ℕ
exponential zero d = d
exponential (suc n) d = exponential n (d * 2)

exponential-least : (n d : ℕ) → d ≤ exponential n d
exponential-least zero d = omega arith
exponential-least (suc n) d = ground (arith, exponential-least n (d * 2))

doubled_lem : (d most : ℕ) → most < 9223372036854775808 → d < most / 2 → doubled d ≡ d * 2
doubled_lem d most h k = omega arith

leb-true : (a b : ℕ) → leb a b ≡ true → a ≤ b
leb-true a b h = ground (arith, h)

leb-false : (a b : ℕ) → leb a b ≡ false → b < a
leb-false a b h = ground (arith, h)

-- A delay within the limit stays within it: it is the limit, which the unlimited delay reaches but for
-- one nanosecond, or it is the unlimited delay.
grow_lem :
    (most n d : ℕ)
    → most < 9223372036854775808
    → d ≤ most
    → (grow most n d ≤ most)
      × (((grow most n d ≡ most) × (most ≤ exponential n d + 1))
          ⊎ (grow most n d ≡ exponential n d))
unfolding grow
grow_lem most zero d h k = (k, inr refl)
grow_lem most (suc n) d h k = elim (Bool-cases (leb (most / 2) d)) [
  | inl e ↦ rw e (omega arith, inl (refl, reaches (leb-true (most / 2) d e)))
  | inr e ↦
      let small : d < most / 2 = leb-false (most / 2) d e in
      rw (e, doubled_lem d most h small) (grow_lem most n (d * 2) h (omega arith))
]
  where
    reaches : most / 2 ≤ d → most ≤ exponential n (d * 2) + 1
    reaches g = let l : d * 2 ≤ exponential n (d * 2) = exponential-least n (d * 2) in omega arith

-- After the defaults, the limit is at least the first delay.
base-le-max :
    (c : EnqueueRetryConfig) → (with_defaults c).base_backoff ≤ (with_defaults c).max_backoff
unfolding with_defaults
base-le-max c = floor (positive_or (seconds 30) c.base_backoff) _
  where
    floor : (a b : ℕ) → a ≤ at_least a b
    floor a b = ground arith

delay-bounds :
    (c : EnqueueRetryConfig) (attempt : ℕ)
    → (with_defaults c).max_backoff < 9223372036854775808
    → (delay (with_defaults c) attempt ≤ (with_defaults c).max_backoff)
      × (((delay (with_defaults c) attempt ≡ (with_defaults c).max_backoff)
            × ((with_defaults c).max_backoff
                ≤ exponential (attempt - 1) (with_defaults c).base_backoff + 1))
          ⊎ (delay (with_defaults c) attempt
              ≡ exponential (attempt - 1) (with_defaults c).base_backoff))
unfolding delay
delay-bounds c attempt h =
    let facts = grow_lem most (attempt - 1) first h (base-le-max c) in
    rw (capped_lem (grow most (attempt - 1) first) facts.0) facts
  where
    most : ℕ
    most = (with_defaults c).max_backoff

    first : ℕ
    first = (with_defaults c).base_backoff

    capped_lem : (d : ℕ) → d ≤ most → capped most d ≡ d
    capped_lem d k = ground arith

-- The sum with a jitter does not wrap as long as there is room for it above the delay.
jitter_lem :
    (d spread : ℕ) (j : ℤ)
    → d + spread < 9223372036854775808
    → magnitude j ≤ spread
    → (not_negative (add_int64 d j) ≤ d + spread) × (d ≤ not_negative (add_int64 d j) + spread)
unfolding add_int64
jitter_lem d spread (pos n) h k = rw (int64-small (d + n) (omega arith)) (omega arith, omega arith)
jitter_lem d spread (negsuc n) h k = elim (Bool-cases (ltb n d)) [
  | inl e ↦ rw e (omega arith, omega arith)
  | inr e ↦ rw e (omega arith, ground (e, arith))
]

-- The back-off of a retry is exponential up to a limit, and spread by the jitter: when the jitter
-- moves no delay within the limit by more than `spread`, and the limit and the spread add up to an
-- int64, the time that is waited differs by at most `spread` from the delay before the jitter. That
-- delay is within the limit; it is the first delay doubled for each attempt before, or the limit
-- itself, which that exponential delay then reaches but for one nanosecond at most.
pub backoff-bounds :
    (jitter : ℕ → ℤ) (c : EnqueueRetryConfig) (attempt spread : ℕ)
    → ((d : ℕ) → d ≤ (with_defaults c).max_backoff → magnitude (jitter d) ≤ spread)
    → (with_defaults c).max_backoff + spread < 9223372036854775808
    → (backoff jitter (with_defaults c) attempt ≤ delay (with_defaults c) attempt + spread)
      × (delay (with_defaults c) attempt ≤ backoff jitter (with_defaults c) attempt + spread)
      × (delay (with_defaults c) attempt ≤ (with_defaults c).max_backoff)
      × (((delay (with_defaults c) attempt ≡ (with_defaults c).max_backoff)
            × ((with_defaults c).max_backoff
                ≤ exponential (attempt - 1) (with_defaults c).base_backoff + 1))
          ⊎ (delay (with_defaults c) attempt
              ≡ exponential (attempt - 1) (with_defaults c).base_backoff))
unfolding backoff
backoff-bounds jitter c attempt spread j h =
    let d = delay (with_defaults c) attempt in
    let (within, shape) = delay-bounds c attempt (omega arith) in
    let (above, below) = jitter_lem d spread (jitter d) (omega arith) (j d within) in
    (above, below, within, shape)
