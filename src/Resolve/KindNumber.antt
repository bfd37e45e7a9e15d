-- ===== src/Resolve/KindNumber.antt =====
-- pkg/resolve/rawspec.go, jsonNumberEqualsTwo: whether a JSON number literal is the integer 2, by
-- its text alone. strconv.Atoi is a parameter. The sum of a length and the exponent does not come
-- near the bounds of an int.
use Prim.Native.Char.{Char, code}
use Prim.Native.String.{String as Text}
use node_vault.Base.{
  ℕ, suc, ℤ, pos, negsuc, ◌+◌, String, Bool, true, false, Option, none, some, if◌then◌else◌, eqb,
  ◌||◌,
}

abbrev pub is_code : ℕ → Char → Bool
is_code n c = eqb (code c) n

abbrev pub is_exponent_mark : Char → Bool
is_exponent_mark c = is_code b'e' c || is_code b'E' c

abbrev pub text_length : String → ℕ
text_length Text.[] = 0
text_length (Text.◌∷◌ c s) = suc (text_length s)

abbrev pub joined : String → String → String
joined Text.[] t = t
joined (Text.◌∷◌ c s) t = Text.◌∷◌ c (joined s t)

-- What is before the first character of a kind, `s[:i]`.
unfoldable pub before : (Char → Bool) → String → String
before p Text.[] = Text.[]
before p (Text.◌∷◌ c s) = if p c then Text.[] else Text.◌∷◌ c (before p s)

-- What is after it, `s[i+1:]`, and `none` when there is none.
unfoldable pub after : (Char → Bool) → String → Option String
after p Text.[] = none
after p (Text.◌∷◌ c s) = if p c then some s else after p s

-- A literal that stands for the significand `digits` scaled by 10 to `exponent - fraction`.
pub record Literal : Type 0 where
  pub digits : String
  pub fraction : ℕ
  pub exponent : ℤ

abbrev pub point : Char → Bool
point c = is_code b'.' c

abbrev pub fraction_of : Option String → String
fraction_of none = Text.[]
fraction_of (some s) = s

abbrev pub literal : String → ℤ → Literal
literal mant e = record {
  digits = joined (before point mant) (fraction_of (after point mant));
  fraction = text_length (fraction_of (after point mant));
  exponent = e;
}

abbrev pub with_exponent : String → Option ℤ → Option Literal
with_exponent mant none = none
with_exponent mant (some e) = some (literal mant e)

abbrev pub exponent_of : (String → Option ℤ) → Option String → Option ℤ
exponent_of atoi none = some (pos 0)
exponent_of atoi (some s) = atoi s

-- The literal read apart, `none` where the exponent is not one.
unfoldable pub read_literal : (String → Option ℤ) → String → Option Literal
unfolding before after
read_literal atoi s =
    with_exponent (before is_exponent_mark s) (exponent_of atoi (after is_exponent_mark s))

unfoldable pub trim_zeros : String → String
trim_zeros Text.[] = Text.[]
trim_zeros (Text.◌∷◌ c s) = let rest = trim_zeros s in if is_code b'0' c then rest else Text.◌∷◌ c s

unfoldable pub all_zeros : String → Bool
all_zeros Text.[] = true
all_zeros (Text.◌∷◌ c s) = let rest = all_zeros s in if is_code b'0' c then rest else false

-- `zeros + exp - len(fracPart) == 0`
abbrev pub at_units : ℕ → ℤ → ℕ → Bool
at_units zeros (pos n) fraction = eqb (zeros + n) fraction
at_units zeros (negsuc n) fraction = eqb zeros (fraction + suc n)

unfoldable pub is_two : String → ℤ → ℕ → Bool
unfolding all_zeros
is_two Text.[] e fraction = false
is_two (Text.◌∷◌ c s) e fraction =
    if is_code b'2' c
    then (if all_zeros s then at_units (text_length s) e fraction else false)
    else false

unfoldable pub reads_two : Option Literal → Bool
unfolding trim_zeros is_two
reads_two none = false
reads_two (some l) = is_two (trim_zeros l.digits) l.exponent l.fraction

-- `jsonNumberEqualsTwo`
unfoldable pub json_number_equals_two : (String → Option ℤ) → String → Bool
unfolding read_literal reads_two
json_number_equals_two atoi Text.[] = false
json_number_equals_two atoi (Text.◌∷◌ c s) =
    if is_code b'-' c then false else reads_two (read_literal atoi (Text.◌∷◌ c s))
