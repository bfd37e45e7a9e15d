-- ===== src/Base/Lists.antt =====
-- The loops `for i := range xs { if p(xs[i]) { ... } }` of the store, as functions on lists.
use Prim.Native.Nat.{ℕ, suc}
use mathlib.Core.Path.{◌≡◌, refl}
use mathlib.Core.Logic.{inl, inr}
use mathlib.Core.Bool.{Bool, true, false}
use mathlib.Core.Option.{Option, none, some}
use mathlib.Core.List.{List, [], ◌∷◌, ◌++◌}
use native.Mathlib.Omega.{arith}
use node_vault.Base.Tests.{if◌then◌else◌, Bool-cases}

module _ {ℓ} {A : Type ℓ} where
  abbrev pub length : List A → ℕ
  length [] = 0
  length (x ∷ xs) = suc (length xs)

  -- Every element satisfies a predicate.
  abbrev pub All {κ} : (A → Type κ) → List A → Type κ
  All P [] = Unit
  All P (x ∷ xs) = P x × All P xs

  -- The first element that passes the test, the early return of a lookup loop.
  unfoldable pub find_first : (A → Bool) → List A → Option A
  find_first p [] = none
  find_first p (x ∷ xs) = if p x then some x else find_first p xs

  -- The elements that pass the test, the `append` of a listing loop.
  unfoldable pub keep : (A → Bool) → List A → List A
  keep p [] = []
  keep p (x ∷ xs) = let rest = keep p xs in if p x then x ∷ rest else rest

  -- Writes through the index of the first element that passes the test.
  unfoldable pub modify_first : (A → Bool) → (A → A) → List A → List A
  modify_first p f [] = []
  modify_first p f (x ∷ xs) = if p x then f x ∷ xs else x ∷ modify_first p f xs

  -- `append(xs, x)`.
  abbrev pub snoc : List A → A → List A
  snoc xs x = xs ++ x ∷ []

  pub find_first-true : (p : A → Bool) (xs : List A) (x : A) → find_first p xs ≡ some x → p x ≡ true
  unfolding find_first
  find_first-true p [] x h = ground arith
  find_first-true p (y ∷ ys) x h = ground (arith, find_first-true p ys x)

  pub find_first-snoc :
      (p : A → Bool) (xs : List A) (x : A)
      → find_first p (snoc xs x)
        ≡ (elim (find_first p xs) [ none ↦ if p x then some x else none | some y ↦ some y ])
  unfolding find_first
  find_first-snoc p [] x = refl
  find_first-snoc p (y ∷ ys) x = ground (arith, find_first-snoc p ys x)

  pub find_first-modify_first :
      (p : A → Bool) (f : A → A) (xs : List A)
      → ((x : A) → p (f x) ≡ p x)
      → find_first p (modify_first p f xs)
        ≡ (elim (find_first p xs) [ none ↦ none | some x ↦ some (f x) ])
  unfolding find_first modify_first
  find_first-modify_first p f [] h = refl
  find_first-modify_first p f (x ∷ xs) h = ground (arith, h x, find_first-modify_first p f xs h)

  pub keep-snoc :
      (p : A → Bool) (xs : List A) (x : A)
      → keep p (snoc xs x) ≡ (if p x then snoc (keep p xs) x else keep p xs)
  unfolding keep
  keep-snoc p [] x = ground arith
  keep-snoc p (y ∷ ys) x = ground (arith, keep-snoc p ys x)

  pub All-keep {κ} :
      (P : A → Type κ) (p : A → Bool) (xs : List A)
      → ((x : A) → p x ≡ true → P x)
      → All P (keep p xs)
  unfolding keep
  All-keep P p [] h = tt
  All-keep P p (x ∷ xs) h = elim (Bool-cases (p x)) [
    | inl e ↦ rw e (h x e, All-keep P p xs h)
    | inr e ↦ rw e (All-keep P p xs h)
  ]

  pub All-snoc {κ} : (P : A → Type κ) (xs : List A) (x : A) → All P xs → P x → All P (snoc xs x)
  All-snoc P [] x h k = (k, tt)
  All-snoc P (y ∷ ys) x h k = (h.0, All-snoc P ys x h.1 k)

  pub All-modify_first {κ} :
      (P : A → Type κ) (p : A → Bool) (f : A → A) (xs : List A)
      → ((x : A) → P x → P (f x))
      → All P xs
      → All P (modify_first p f xs)
  unfolding modify_first
  All-modify_first P p f [] k h = tt
  All-modify_first P p f (x ∷ xs) k h = elim (Bool-cases (p x)) [
    | inl e ↦ rw e (k x h.0, h.1)
    | inr e ↦ rw e (h.0, All-modify_first P p f xs k h.1)
  ]

  -- A write through the first element found is found again, and is invisible to a test that it and
  -- the element that it replaces both fail.
  pub find_first-modify_self :
      (p : A → Bool) (y : A) (xs : List A) (x : A)
      → find_first p xs ≡ some x
      → p y ≡ true
      → find_first p (modify_first p (λ _. y) xs) ≡ some y
  unfolding find_first modify_first
  find_first-modify_self p y [] x h k = cc
  find_first-modify_self p y (z ∷ zs) x h k = ground (arith, find_first-modify_self p y zs x)

  pub find_first-modify_other :
      (p q : A → Bool) (y : A) (xs : List A) (x : A)
      → find_first p xs ≡ some x
      → q x ≡ false
      → q y ≡ false
      → find_first q (modify_first p (λ _. y) xs) ≡ find_first q xs
  unfolding find_first modify_first
  find_first-modify_other p q y [] x h k n = refl
  find_first-modify_other p q y (z ∷ zs) x h k n =
      ground (arith, find_first-modify_other p q y zs x)
