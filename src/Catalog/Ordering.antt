-- ===== src/Catalog/Ordering.antt =====
-- pkg/catalog/toolfunction.go: the order of the encodings, `bytes.Compare(s, t) < 0`.
use Prim.Native.Nat as Nat
use Prim.Native.Nat.compare as ncmp
use Prim.Native.Nat.{Ordering}
use Prim.Native.Char.{code}
use Prim.Native.String.{String as Text, compare, then}
use Prim.Native.String.compare as cmp
use text.Mathlib.TextEquality.{path_by_compare}
use node_vault.Base.{
  ℕ, ◌≡◌, sym, ap, ◌∙◌, String, true, false, arith, ◌==◌, eq_refl, eq_iff, Bool-cases, inl, inr,
}
use node_vault.Catalog.SetLike.{bytes_ltb}

then_flip :
    (m n : ℕ) (o p : Ordering)
    → (o ≡ Ordering.lt → p ≡ Ordering.gt)
    → then (Nat.compare m n) o ≡ Ordering.lt
    → then (Nat.compare n m) p ≡ Ordering.gt
then_flip m n o p k h = ground (arith, k)

bytes_flip : (s t : String) → compare s t ≡ Ordering.lt → compare t s ≡ Ordering.gt
bytes_flip Text.[] Text.[] h = cc
bytes_flip Text.[] (Text.◌∷◌ d t) h = cmp.cons-nil d t
bytes_flip (Text.◌∷◌ c s) Text.[] h = cc (cmp.cons-nil c s)
bytes_flip (Text.◌∷◌ c s) (Text.◌∷◌ d t) h =
    cmp.cons-cons d c t s
    ∙ then_flip (code c) (code d) (compare s t) (compare t s) (bytes_flip s t)
        (sym (cmp.cons-cons c d s t) ∙ h)

then_total :
    (m n : ℕ) (o p : Ordering)
    → (o ≡ Ordering.gt → p ≡ Ordering.lt)
    → then (Nat.compare m n) o ≡ Ordering.gt
    → then (Nat.compare n m) p ≡ Ordering.lt
then_total m n o p k h = ground (arith, k)

bytes_total : (s t : String) → compare s t ≡ Ordering.gt → compare t s ≡ Ordering.lt
bytes_total Text.[] Text.[] h = cc
bytes_total Text.[] (Text.◌∷◌ d t) h = cc (cmp.nil-cons d t)
bytes_total (Text.◌∷◌ c s) Text.[] h = cmp.nil-cons c s
bytes_total (Text.◌∷◌ c s) (Text.◌∷◌ d t) h =
    cmp.cons-cons d c t s
    ∙ then_total (code c) (code d) (compare s t) (compare t s) (bytes_total s t)
        (sym (cmp.cons-cons c d s t) ∙ h)

then_trans :
    (l m n : ℕ) (o p q : Ordering)
    → (o ≡ Ordering.lt → p ≡ Ordering.lt → q ≡ Ordering.lt)
    → then (Nat.compare l m) o ≡ Ordering.lt
    → then (Nat.compare m n) p ≡ Ordering.lt
    → then (Nat.compare l n) q ≡ Ordering.lt
then_trans l m n o p q k h g = ground (arith, k)

bytes_trans :
    (s t u : String)
    → compare s t ≡ Ordering.lt
    → compare t u ≡ Ordering.lt
    → compare s u ≡ Ordering.lt
bytes_trans Text.[] Text.[] u h g = cc
bytes_trans Text.[] (Text.◌∷◌ d t) Text.[] h g = cc (cmp.cons-nil d t)
bytes_trans Text.[] (Text.◌∷◌ d t) (Text.◌∷◌ e u) h g = cmp.nil-cons e u
bytes_trans (Text.◌∷◌ c s) Text.[] u h g = cc (cmp.cons-nil c s)
bytes_trans (Text.◌∷◌ c s) (Text.◌∷◌ d t) Text.[] h g = cc (cmp.cons-nil d t)
bytes_trans (Text.◌∷◌ c s) (Text.◌∷◌ d t) (Text.◌∷◌ e u) h g =
    cmp.cons-cons c e s u
    ∙ then_trans (code c) (code d) (code e) (compare s t) (compare t u) (compare s u)
        (bytes_trans s t u) (sym (cmp.cons-cons c d s t) ∙ h) (sym (cmp.cons-cons d e t u) ∙ g)

pub bytes_ltb_trans :
    (s t u : String) → bytes_ltb s t ≡ true → bytes_ltb t u ≡ true → bytes_ltb s u ≡ true
unfolding bytes_ltb
bytes_ltb_trans s t u h g = ground (arith, bytes_trans s t u)

pub bytes_ltb_asym : (s t : String) → bytes_ltb s t ≡ true → bytes_ltb t s ≡ false
unfolding bytes_ltb
bytes_ltb_asym s t h = ground (arith, bytes_flip s t)

pub bytes_ltb_total : (s t : String) → bytes_ltb s t ≡ false → bytes_ltb t s ≡ false → s ≡ t
unfolding bytes_ltb
bytes_ltb_total s t h g = path_by_compare s t (ground (arith, bytes_total s t))

pub bytes_ltb_irrefl : (s : String) → bytes_ltb s s ≡ false
unfolding bytes_ltb
bytes_ltb_irrefl s = ground (arith, bytes_flip s s)

bytes_ltb-differs : (s t : String) → bytes_ltb s t ≡ true → (s == t) ≡ false
bytes_ltb-differs s t h = elim (Bool-cases (s == t)) [
  | inl e ↦ cc (ap (bytes_ltb s) ((eq_iff s t).0 e), bytes_ltb_irrefl s)
  | inr e ↦ e
]

-- Of two encodings one is below the other, or they are the same.
pub data Compared (s t : String) : Type 0 where
  below :
      bytes_ltb s t ≡ true
      → bytes_ltb t s ≡ false
      → (s == t) ≡ false
      → (t == s) ≡ false
      → Compared s t
  same : s ≡ t → Compared s t
  above :
      bytes_ltb t s ≡ true
      → bytes_ltb s t ≡ false
      → (s == t) ≡ false
      → (t == s) ≡ false
      → Compared s t

differs_sym : (s t : String) → (s == t) ≡ false → (t == s) ≡ false
differs_sym s t h = elim (Bool-cases (t == s)) [
  | inl e ↦ cc (ap (◌==◌ s) ((eq_iff t s).0 e), eq_refl s)
  | inr e ↦ e
]

pub compared : (s t : String) → Compared s t
compared s t = elim (Bool-cases (bytes_ltb s t)) [
  | inl e ↦
      below e (bytes_ltb_asym s t e) (bytes_ltb-differs s t e)
        (differs_sym s t (bytes_ltb-differs s t e))
  | inr e ↦ elim (Bool-cases (bytes_ltb t s)) [
    | inl g ↦ above g e (differs_sym t s (bytes_ltb-differs t s g)) (bytes_ltb-differs t s g)
    | inr g ↦ same (bytes_ltb_total s t e g)
  ]
]
