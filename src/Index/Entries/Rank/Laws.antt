-- ===== src/Index/Entries/Rank/Laws.antt =====
-- What the ranking of referrers gives: an order, the ranks 1, 2, ..., and who is retained.
use Prim.Native.Nat.{Ordering}
use Prim.Native.Nat as Nat
use Prim.Native.Char.{code}
use Prim.Native.String.{String as Text, compare, then}
use Prim.Native.String.compare as cmp
use mathlib.Core.List.{Perm}
use mathlib.Core.List.Perm
use node_vault.Base.{
  ℕ, suc, ◌+◌, ◌≡◌, refl, sym, ◌∙◌, Time, String, true, false, List, [], ◌∷◌, map, arith, snoc,
  Bool-cases, inl, inr, leb,
}
use node_vault.Index.Schema.{
  ToolProfileReferrer, ReferrerLifecycleStatus, default_tool_profile_referrer_retain,
}
use node_vault.Index.Entries.Rank.{
  text_ltb, before, insert, sort, mark, mark_from, rank_tool_profile_referrers,
}

then_flip :
    (m n : ℕ) (o p : Ordering)
    → (o ≡ Ordering.lt → p ≡ Ordering.gt)
    → then (Nat.compare m n) o ≡ Ordering.lt
    → then (Nat.compare n m) p ≡ Ordering.gt
then_flip m n o p k h = ground (arith, k)

compare_flip : (s t : String) → compare s t ≡ Ordering.lt → compare t s ≡ Ordering.gt
compare_flip Text.[] Text.[] h = cc
compare_flip Text.[] (Text.◌∷◌ d t) h = cmp.cons-nil d t
compare_flip (Text.◌∷◌ c s) Text.[] h = cc (cmp.cons-nil c s)
compare_flip (Text.◌∷◌ c s) (Text.◌∷◌ d t) h =
    cmp.cons-cons d c t s
    ∙ then_flip (code c) (code d) (compare s t) (compare t s) (compare_flip s t)
        (sym (cmp.cons-cons c d s t) ∙ h)

text_ltb_asym : (s t : String) → text_ltb s t ≡ true → text_ltb t s ≡ false
text_ltb_asym s t h = ground (arith, compare_flip s t)

-- Of two referrers at most one stands before the other.
before_asym : (a b : ToolProfileReferrer) → before a b ≡ true → before b a ≡ false
unfolding before
before_asym a b h = ground (arith, text_ltb_asym a.digest b.digest)

-- The first of a list does not stand before `x`.
abbrev pub Follows : ToolProfileReferrer → List ToolProfileReferrer → Type 0
Follows x [] = Unit
Follows x (y ∷ ys) = before y x ≡ false

-- No referrer stands before the one that is listed just above it.
abbrev pub IsOrdered : List ToolProfileReferrer → Type 0
IsOrdered [] = Unit
IsOrdered (x ∷ xs) = Follows x xs × IsOrdered xs

insert-Follows :
    (x y : ToolProfileReferrer) (ys : List ToolProfileReferrer)
    → before x y ≡ false
    → Follows y ys
    → Follows y (insert x ys)
unfolding insert
insert-Follows x y [] h k = h
insert-Follows x y (z ∷ zs) h k = elim (Bool-cases (before z x)) [ inl e ↦ rw e k | inr e ↦ rw e h ]

insert-IsOrdered :
    (x : ToolProfileReferrer) (ys : List ToolProfileReferrer)
    → IsOrdered ys
    → IsOrdered (insert x ys)
unfolding insert
insert-IsOrdered x [] h = (tt, tt)
insert-IsOrdered x (y ∷ ys) h = elim (Bool-cases (before y x)) [
  | inl e ↦ rw e (insert-Follows x y ys (before_asym y x e) h.0, insert-IsOrdered x ys h.1)
  | inr e ↦ rw e (e, h)
]

sort-IsOrdered : (xs : List ToolProfileReferrer) → IsOrdered (sort xs)
unfolding sort
sort-IsOrdered [] = tt
sort-IsOrdered (x ∷ xs) = insert-IsOrdered x (sort xs) (sort-IsOrdered xs)

insert-perm :
    (x : ToolProfileReferrer) (ys : List ToolProfileReferrer) → Perm (insert x ys) (x ∷ ys)
unfolding insert
insert-perm x [] = Perm.refl (x ∷ [])
insert-perm x (y ∷ ys) = elim (Bool-cases (before y x)) [
  | inl e ↦ rw e (Perm.trans (Perm.cons y (insert-perm x ys)) (Perm.swap x y ys))
  | inr e ↦ rw e (Perm.refl (x ∷ y ∷ ys))
]

sort-perm : (xs : List ToolProfileReferrer) → Perm (sort xs) xs
unfolding sort
sort-perm [] = Perm.refl []
sort-perm (x ∷ xs) = Perm.trans (insert-perm x (sort xs)) (Perm.cons x (sort-perm xs))

-- What a referrer says of the registry and of the validation, without NodeVault's own marks.
abbrev pub facts : ToolProfileReferrer → String × String × String × Time × Time
facts r = (r.digest, r.validation_run_id, r.validation_status, r.validated_at, r.observed_at)

map-mark_from :
    (now i : ℕ) (rs : List ToolProfileReferrer) → map facts (mark_from now i rs) ≡ map facts rs
unfolding mark_from mark
map-mark_from now i [] = refl
map-mark_from now i (r ∷ rs) = ground (arith, map-mark_from now (suc i) rs)

mark-before :
    (now m n : ℕ) (a b : ToolProfileReferrer) → before (mark now m a) (mark now n b) ≡ before a b
unfolding mark before
mark-before now m n a b = ground arith

mark_from-IsOrdered :
    (now i : ℕ) (rs : List ToolProfileReferrer) → IsOrdered rs → IsOrdered (mark_from now i rs)
unfolding mark_from
mark_from-IsOrdered now i [] h = tt
mark_from-IsOrdered now i (r ∷ []) h = (tt, tt)
mark_from-IsOrdered now i (r ∷ s ∷ rs) h =
    (mark-before now (suc i) i s r ∙ h.0, mark_from-IsOrdered now (suc i) (s ∷ rs) h.1)

-- From rank `i + 1` on: the ranks count up, and exactly the ranks within the limit are retained.
abbrev pub IsMarkedFrom : ℕ → List ToolProfileReferrer → Type 0
IsMarkedFrom i [] = Unit
IsMarkedFrom i (r ∷ rs) =
    ((r.rank ≡ i + 1)
      × (r.lifecycle_status ≡ (elim (leb r.rank default_tool_profile_referrer_retain) [
        | true ↦ ReferrerLifecycleStatus.active
        | false ↦ ReferrerLifecycleStatus.gc_candidate
      ])))
    × IsMarkedFrom (suc i) rs

mark_from-IsMarkedFrom :
    (now i : ℕ) (rs : List ToolProfileReferrer) → IsMarkedFrom i (mark_from now i rs)
unfolding mark_from mark
mark_from-IsMarkedFrom now i [] = tt
mark_from-IsMarkedFrom now i (r ∷ rs) =
    ((ground arith, ground arith), mark_from-IsMarkedFrom now (suc i) rs)

-- After a referrer is recorded, the history is the old one and the new referrer, in an order in
-- which no referrer is more recent than the one above it; the ranks are 1, 2, 3, ...; and exactly
-- the three first are ACTIVE, the others GC_CANDIDATE.
pub rank_tool_profile_referrers_lem :
    (now : Time) (refs : List ToolProfileReferrer) (ref : ToolProfileReferrer)
    → let ranked : List ToolProfileReferrer = rank_tool_profile_referrers now refs ref in
      Perm (map facts ranked) (map facts (snoc refs ref)) × IsOrdered ranked × IsMarkedFrom 0 ranked
unfolding rank_tool_profile_referrers
rank_tool_profile_referrers_lem now refs ref = (
  rw (map-mark_from now 0 (sort (snoc refs ref))) (Perm.map facts (sort-perm (snoc refs ref))),
  mark_from-IsOrdered now 0 (sort (snoc refs ref)) (sort-IsOrdered (snoc refs ref)),
  mark_from-IsMarkedFrom now 0 (sort (snoc refs ref)),
)
