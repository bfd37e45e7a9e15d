-- ===== src/Resolve/IntegerTwo.antt =====
-- pkg/resolve/rawspec.go, jsonNumberEqualsTwo: the number that an accepted literal stands for.
use Prim.Native.Char.{Char, code}
use Prim.Native.String.{String as Text}
use node_vault.Base.{
  ℕ, suc, ℤ, pos, negsuc, ◌+◌, ◌*◌, ◌-◌, ◌≡◌, refl, ap, ◌∙◌, String, true, Option, none, some,
  arith, Bool-cases, inl, inr, sym, zero,
}
use node_vault.Resolve.KindNumber.{
  is_code, text_length, Literal, read_literal, trim_zeros, all_zeros, at_units, is_two, reads_two,
  json_number_equals_two,
}

-- What the digits of a text add to the number that was read before them.
unfoldable pub decimal : ℕ → String → ℕ
decimal n Text.[] = n
decimal n (Text.◌∷◌ c s) = decimal (n * 10 + (code c - b'0')) s

-- `n` with `k` zeros after it.
unfoldable pub shifted : ℕ → ℕ → ℕ
shifted n zero = n
shifted n (suc k) = shifted (n * 10) k

-- `k + e = fraction`
abbrev pub Cancels : ℕ → ℤ → ℕ → Type 0
Cancels k (pos e) fraction = k + e ≡ fraction
Cancels k (negsuc e) fraction = k ≡ fraction + suc e

code_of : (n : ℕ) (c : Char) → is_code n c ≡ true → code c ≡ n
code_of n c h = ground (h, arith)

zeros_lem : (n : ℕ) (s : String) → all_zeros s ≡ true → decimal n s ≡ shifted n (text_length s)
unfolding all_zeros decimal shifted
zeros_lem n Text.[] h = refl
zeros_lem n (Text.◌∷◌ c s) h = elim (Bool-cases (is_code b'0' c)) [
  | inl e ↦
      let digit : code c - b'0' ≡ 0 = ground (code_of b'0' c e, arith) in
      let more : all_zeros s ≡ true = rw e at h in
      ap (λ m. decimal m s) (ground (digit, arith)) ∙ zeros_lem (n * 10) s more
  | inr e ↦ absurd (let k = rw e at h in cc)
]

trim_zeros_lem : (s : String) → decimal 0 (trim_zeros s) ≡ decimal 0 s
unfolding trim_zeros decimal
trim_zeros_lem Text.[] = refl
trim_zeros_lem (Text.◌∷◌ c s) = elim (Bool-cases (is_code b'0' c)) [
  | inl e ↦
      let digit : 0 * 10 + (code c - b'0') ≡ 0 = ground (code_of b'0' c e, arith) in
      rw e (trim_zeros_lem s ∙ sym (ap (λ m. decimal m s) digit))
  | inr e ↦ rw e refl
]

at_units_lem : (k : ℕ) (e : ℤ) (fraction : ℕ) → at_units k e fraction ≡ true → Cancels k e fraction
at_units_lem k (pos e) fraction h = ground (h, arith)
at_units_lem k (negsuc e) fraction h = ground (h, arith)

-- Two, followed by as many zeros as the scale takes away.
abbrev pub IsTwo : Literal → Type 0
IsTwo l = (k : ℕ) × (decimal 0 l.digits ≡ shifted 2 k) × Cancels k l.exponent l.fraction

is_two_lem :
    (s : String) (e : ℤ) (fraction : ℕ)
    → is_two s e fraction ≡ true
    → (k : ℕ) × (decimal 0 s ≡ shifted 2 k) × Cancels k e fraction
unfolding is_two decimal
is_two_lem Text.[] e fraction h = absurd (cc)
is_two_lem (Text.◌∷◌ c s) e fraction h = elim (Bool-cases (is_code b'2' c)) [
  | inr n ↦ absurd (let k = rw n at h in cc)
  | inl t ↦ elim (Bool-cases (all_zeros s)) [
    | inr n ↦ absurd (let k = rw (t, n) at h in cc)
    | inl z ↦
        let digit : 0 * 10 + (code c - b'0') ≡ 2 = ground (code_of b'2' c t, arith) in
        let units : at_units (text_length s) e fraction ≡ true = rw (t, z) at h in
        (
          text_length s,
          ap (λ m. decimal m s) digit ∙ zeros_lem 2 s z,
          at_units_lem (text_length s) e fraction units,
        )
  ]
]

read_lem : (o : Option Literal) → reads_two o ≡ true → (l : Literal) × (o ≡ some l) × IsTwo l
unfolding reads_two
read_lem none h = absurd (cc)
read_lem (some l) h =
    let two = is_two_lem (trim_zeros l.digits) l.exponent l.fraction h in
    (l, refl, (two.0, sym (trim_zeros_lem l.digits) ∙ two.1, two.2))

-- A literal that is accepted is the integer 2: it can be read apart, and its digits make the number 2
-- followed by zeros, exactly as many as its exponent and its fraction take away again.
pub json_number_equals_two-IsTwo :
    (atoi : String → Option ℤ) (s : String)
    → json_number_equals_two atoi s ≡ true
    → (l : Literal) × (read_literal atoi s ≡ some l) × IsTwo l
unfolding json_number_equals_two
json_number_equals_two-IsTwo atoi Text.[] h = absurd (cc)
json_number_equals_two-IsTwo atoi (Text.◌∷◌ c s) h = elim (Bool-cases (is_code b'-' c)) [
  | inl m ↦ absurd (let k = rw m at h in cc)
  | inr m ↦ read_lem (read_literal atoi (Text.◌∷◌ c s)) (rw m at h)
]
