-- ===== src/Catalog/SortedSet.antt =====
-- pkg/catalog/toolfunction.go, sortCanonicalSetIn: what an accepted list is.
use mathlib.Core.List.Permᴰ
use mathlib.Core.List.{Permᴰ}
use mathlib.Core.Path.{subst}
use node_vault.Base.{
  ◌≡◌, refl, ap, String, Bool, true, false, not, ◌&&◌, Option, none, some, List, [], ◌∷◌, ◌==◌,
  arith, inl, inr, Bool-cases, eq_refl,
}
use node_vault.Status.{Outcome, Code, ok, fail, ◌>>=◌}
use node_vault.Catalog.Json.{Json}
use node_vault.Catalog.SetLike.{
  Marshal, Keyed, bytes_ltb, encode_all, place, sort_keyed, no_duplicate, values, distinct,
  sort_canonical_set,
}
use node_vault.Catalog.Ordering.{Compared, compared, bytes_ltb_asym}

-- The encodings go up, strictly.
abbrev pub Below : Keyed → List Keyed → Type 0
Below x [] = Unit
Below x (y ∷ ys) = bytes_ltb x.enc y.enc ≡ true

abbrev pub IsAscending : List Keyed → Type 0
IsAscending [] = Unit
IsAscending (x ∷ xs) = Below x xs × IsAscending xs

-- Each element stands with its own encoding.
abbrev pub IsEncoded : Marshal → List Keyed → Type 0
IsEncoded marshal [] = Unit
IsEncoded marshal (x ∷ xs) = (marshal x.v ≡ some x.enc) × IsEncoded marshal xs

place-Perm : (x : Keyed) (ys : List Keyed) → Permᴰ (x ∷ ys) (place x ys)
unfolding place
place-Perm x [] = Permᴰ.refl _
place-Perm x (y ∷ ys) = elim (Bool-cases (bytes_ltb y.enc x.enc)) [
  | inl e ↦ rw e (Permᴰ.trans (Permᴰ.swap refl refl) (Permᴰ.cons refl (place-Perm x ys)))
  | inr e ↦ rw e (Permᴰ.refl _)
]

sort_keyed-Perm : (xs : List Keyed) → Permᴰ xs (sort_keyed xs)
unfolding sort_keyed
sort_keyed-Perm [] = Permᴰ.nil
sort_keyed-Perm (x ∷ xs) =
    Permᴰ.trans (Permᴰ.cons refl (sort_keyed-Perm xs)) (place-Perm x (sort_keyed xs))

-- Neighbours that are not out of order.
abbrev NotAbove : Keyed → List Keyed → Type 0
NotAbove x [] = Unit
NotAbove x (y ∷ ys) = bytes_ltb y.enc x.enc ≡ false

abbrev IsSorted : List Keyed → Type 0
IsSorted [] = Unit
IsSorted (x ∷ xs) = NotAbove x xs × IsSorted xs

place-NotAbove :
    (x y : Keyed) (ys : List Keyed)
    → bytes_ltb y.enc x.enc ≡ true
    → NotAbove y ys
    → NotAbove y (place x ys)
unfolding place
place-NotAbove x y [] h k = bytes_ltb_asym y.enc x.enc h
place-NotAbove x y (z ∷ zs) h k = elim (Bool-cases (bytes_ltb z.enc x.enc)) [
  | inl e ↦ rw e k
  | inr e ↦ rw e (bytes_ltb_asym y.enc x.enc h)
]

place-IsSorted : (x : Keyed) (ys : List Keyed) → IsSorted ys → IsSorted (place x ys)
unfolding place
place-IsSorted x [] h = (tt, tt)
place-IsSorted x (y ∷ ys) h = elim (Bool-cases (bytes_ltb y.enc x.enc)) [
  | inl e ↦ rw e (place-NotAbove x y ys e h.0, place-IsSorted x ys h.1)
  | inr e ↦ rw e (e, h)
]

sort_keyed-IsSorted : (xs : List Keyed) → IsSorted (sort_keyed xs)
unfolding sort_keyed
sort_keyed-IsSorted [] = tt
sort_keyed-IsSorted (x ∷ xs) = place-IsSorted x (sort_keyed xs) (sort_keyed-IsSorted xs)

strictly : (s t : String) → bytes_ltb t s ≡ false → (s == t) ≡ false → bytes_ltb s t ≡ true
strictly s t h d = elim (compared s t) [
  | Compared.below l n e f ↦ l
  | Compared.same q ↦ absurd (let k = ap (λ x. x == t) q in ground (k, d, eq_refl t, arith))
  | Compared.above l n e f ↦ absurd (ground (l, h, arith))
]

both_true : (a b : Bool) → (a && b) ≡ true → (a ≡ true) × (b ≡ true)
both_true true true h = (refl, refl)
both_true true false h = cc
both_true false b h = cc

ascends : (xs : List Keyed) → IsSorted xs → no_duplicate xs ≡ true → IsAscending xs
unfolding no_duplicate
ascends [] s h = tt
ascends (x ∷ []) s h = (tt, tt)
ascends (x ∷ (y ∷ ys)) s h =
    let both = both_true (not (x.enc == y.enc)) (no_duplicate (y ∷ ys)) h in
    (strictly x.enc y.enc s.0 (negated both.0), ascends (y ∷ ys) s.1 both.1)
  where
    negated : {b : Bool} → not b ≡ true → b ≡ false
    negated {b = true} h = cc
    negated {b = false} h = refl

abbrev Sound : Marshal → List Json → Outcome (List Keyed) → Type 0
Sound marshal vs (ok es) = IsEncoded marshal es × (values es ≡ vs)
Sound marshal vs (fail c) = Unit

encode_all-Sound : (marshal : Marshal) (vs : List Json) → Sound marshal vs (encode_all marshal vs)
unfolding encode_all
encode_all-Sound marshal [] = (tt, refl)
encode_all-Sound marshal (v ∷ vs) =
    go (marshal v) refl (encode_all marshal vs) (encode_all-Sound marshal vs)
  where
    go :
        (m : Option String)
        → marshal v ≡ m
        → (o : Outcome (List Keyed)) → Sound marshal vs o
        → Sound marshal (v ∷ vs) (
            (elim m [ none ↦ fail Code.internal | some enc ↦ ok (record { enc = enc; v = v }) ])
            >>= λ e. o >>= λ es. ok (e ∷ es))
    go none q o s = tt
    go (some enc) q (fail c) s = tt
    go (some enc) q (ok es) s = ((q, s.0), ap (λ l. v ∷ l) s.1)

IsEncoded-Perm :
    (marshal : Marshal) {xs ys : List Keyed}
    → Permᴰ xs ys
    → IsEncoded marshal xs
    → IsEncoded marshal ys
IsEncoded-Perm marshal Permᴰ.nil h = tt
IsEncoded-Perm marshal (Permᴰ.cons e d) h =
    (subst (λ x. marshal x.v ≡ some x.enc) e h.0, IsEncoded-Perm marshal d h.1)
IsEncoded-Perm marshal (Permᴰ.swap p q) h = (
  subst (λ x. marshal x.v ≡ some x.enc) q h.1.0,
  (subst (λ x. marshal x.v ≡ some x.enc) p h.0, h.1.1),
)
IsEncoded-Perm marshal (Permᴰ.trans d e) h = IsEncoded-Perm marshal e (IsEncoded-Perm marshal d h)

values-Perm : {xs ys : List Keyed} → Permᴰ xs ys → Permᴰ (values xs) (values ys)
values-Perm Permᴰ.nil = Permᴰ.nil
values-Perm (Permᴰ.cons e d) = Permᴰ.cons (λ i. (e i).v) (values-Perm d)
values-Perm (Permᴰ.swap p q) = Permᴰ.swap (λ i. (p i).v) (λ i. (q i).v)
values-Perm (Permᴰ.trans d e) = Permᴰ.trans (values-Perm d) (values-Perm e)

-- A set-like list that is accepted comes back as its own elements in another order, each with its
-- encoding, and the encodings strictly ascend: no two elements have the same one.
pub sort_canonical_set-ok :
    (marshal : Marshal) (vs ws : List Json)
    → sort_canonical_set marshal vs ≡ ok ws
    → (es : List Keyed) × (values es ≡ ws) × IsEncoded marshal es × IsAscending es × Permᴰ vs ws
unfolding sort_canonical_set
sort_canonical_set-ok marshal vs ws h = go (encode_all marshal vs) (encode_all-Sound marshal vs) h
  where
    go :
        (o : Outcome (List Keyed))
        → Sound marshal vs o
        → (o >>= λ es. distinct (sort_keyed es)) ≡ ok ws
        → (es : List Keyed) × (values es ≡ ws) × IsEncoded marshal es × IsAscending es × Permᴰ vs ws
    go (fail c) s k = absurd (cc)
    go (ok es) s k = elim (Bool-cases (no_duplicate (sort_keyed es))) [
      | inl e ↦
          let sorted : values (sort_keyed es) ≡ ws = ground (e, k, arith) in
          (
            sort_keyed es,
            sorted,
            IsEncoded-Perm marshal (sort_keyed-Perm es) s.0,
            ascends (sort_keyed es) (sort_keyed-IsSorted es) e,
            subst (Permᴰ vs) sorted (
                subst (λ l. Permᴰ l (values (sort_keyed es))) s.1
                  (values-Perm (sort_keyed-Perm es))),
          )
      | inr e ↦ absurd (ground (e, k, arith))
    ]
