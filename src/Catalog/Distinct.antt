-- ===== src/Catalog/Distinct.antt =====
-- pkg/catalog/toolfunction.go, sortCanonicalSetIn against a sort that refuses a duplicate as it
-- meets it, which the order of the elements does not matter to.
use mathlib.Core.List.{Permᴰ}
use node_vault.Base.{
  ◌≡◌, refl, sym, ap, ◌∙◌, true, Option, none, some, List, [], ◌∷◌, ◌==◌, if◌then◌else◌, arith, ◌⊎◌,
  inl, inr, eq_refl,
}
use node_vault.Catalog.SetLike.{
  Keyed, bytes_ltb, place, sort_keyed, no_duplicate, differs_from_next,
}
use node_vault.Catalog.Ordering.{Compared, compared, bytes_ltb_trans, bytes_ltb_irrefl}

-- Where `x` goes in `ys`, unless an element that it reaches has its encoding.
unfoldable pub insert_new : Keyed → List Keyed → Option (List Keyed)
insert_new x [] = some (x ∷ [])
insert_new x (y ∷ ys) =
    let rest = insert_new x ys in
    if bytes_ltb y.enc x.enc
    then elim rest [ none ↦ none | some zs ↦ some (y ∷ zs) ]
    else if x.enc == y.enc
    then none
    else some (x ∷ (y ∷ ys))

abbrev pub insert_into : Keyed → Option (List Keyed) → Option (List Keyed)
insert_into x none = none
insert_into x (some ys) = insert_new x ys

-- The elements in their order, unless two have the same encoding.
unfoldable pub sort_new : List Keyed → Option (List Keyed)
sort_new [] = some []
sort_new (x ∷ xs) = insert_into x (sort_new xs)

insert_new_comm :
    (x y : Keyed) (zs : List Keyed)
    → insert_into x (insert_new y zs) ≡ insert_into y (insert_new x zs)
unfolding insert_new
insert_new_comm x y [] = ground (arith, compared x.enc y.enc, bytes_ltb_irrefl y.enc, eq_refl y.enc)
insert_new_comm x y (z ∷ zs) = ground (
  arith,
  insert_new_comm x y zs,
  compared x.enc y.enc,
  compared z.enc x.enc,
  compared z.enc y.enc,
  bytes_ltb_trans x.enc y.enc z.enc,
  bytes_ltb_trans y.enc x.enc z.enc,
  bytes_ltb_trans z.enc x.enc y.enc,
  bytes_ltb_trans z.enc y.enc x.enc,
  bytes_ltb_irrefl x.enc,
  bytes_ltb_irrefl y.enc,
  bytes_ltb_irrefl z.enc,
  eq_refl x.enc,
  eq_refl y.enc,
  eq_refl z.enc,
)

insert_into_comm :
    (x y : Keyed) (o : Option (List Keyed))
    → insert_into x (insert_into y o) ≡ insert_into y (insert_into x o)
insert_into_comm x y none = refl
insert_into_comm x y (some zs) = insert_new_comm x y zs

pub sort_new-Perm : {xs ys : List Keyed} → Permᴰ xs ys → sort_new xs ≡ sort_new ys
unfolding sort_new
sort_new-Perm Permᴰ.nil = refl
sort_new-Perm (Permᴰ.cons e d) = λ i. insert_into (e i) (sort_new-Perm d i)
sort_new-Perm (Permᴰ.swap {a = a} {b = b} {l = l} p q) =
    insert_into_comm a b (sort_new l) ∙ (λ i. insert_into (q i) (insert_into (p i) (sort_new l)))
sort_new-Perm (Permᴰ.trans d e) = sort_new-Perm d ∙ sort_new-Perm e

-- What is placed after an element leaves the comparison with its successor, or is a duplicate.
place-differs :
    (x y : Keyed) (ys : List Keyed)
    → bytes_ltb y.enc x.enc ≡ true
    → (insert_new x ys ≡ none) ⊎ (differs_from_next y (place x ys) ≡ differs_from_next y ys)
unfolding insert_new place
place-differs x y [] h = inr (ground (arith, compared y.enc x.enc, bytes_ltb_irrefl x.enc))
place-differs x y (z ∷ zs) h = elim (compared z.enc x.enc) [
  | Compared.below l n d e ↦ inr (ground arith)
  | Compared.same q ↦ inl (ground (arith, bytes_ltb_irrefl x.enc, eq_refl x.enc))
  | Compared.above l n d e ↦ inr (
      ground (
        arith,
        compared y.enc x.enc,
        compared y.enc z.enc,
        bytes_ltb_irrefl x.enc,
        bytes_ltb_irrefl z.enc,
      ))
]

-- The list, when the loop over the neighbours finds no duplicate.
abbrev pub accepted : List Keyed → Option (List Keyed)
accepted ys = if no_duplicate ys then some ys else none

accepted-place : (x : Keyed) (ys : List Keyed) → insert_into x (accepted ys) ≡ accepted (place x ys)
unfolding insert_new place no_duplicate
accepted-place x [] = refl
accepted-place x (y ∷ ys) = ground (arith, accepted-place x ys, place-differs x y ys)

pub sort_keyed_lem : (xs : List Keyed) → accepted (sort_keyed xs) ≡ sort_new xs
unfolding sort_new sort_keyed no_duplicate
sort_keyed_lem [] = refl
sort_keyed_lem (x ∷ xs) =
    sym (accepted-place x (sort_keyed xs)) ∙ ap (insert_into x) (sort_keyed_lem xs)
