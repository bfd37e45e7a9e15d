-- ===== src/Index/Sections.antt =====
-- The two shapes that every section of the index is written in, and what they keep.
use node_vault.Base.{
  ◌≡◌, refl, sym, ◌∙◌, ap, fun_ext, String, Bool, true, false, Option, none, some, List, [], ◌∷◌,
  arith, ◌==◌, eq_iff, find_first, modify_first, snoc, find_first-snoc, if◌then◌else◌, Bool-cases,
  ◌⊎◌, inl, inr, find_first-true, find_first-modify_self, find_first-modify_other,
}
use node_vault.Index.Errors.{Error, Result, ok, err, ◌>>=◌, not_found, empty_key}

module _ {A : Type 0} where
  abbrev pub found : Option A → Bool
  found none = false
  found (some x) = true

  -- Guard and append: refuse an empty key, refuse a clash, append.
  unfoldable pub append_new : Bool → (A → Bool) → Error → A → List A → Result (List A)
  append_new no_key clash dup x xs =
      if no_key
      then err empty_key
      else if found (find_first clash xs)
      then err dup
      else ok (snoc xs x)

  -- `findIndex`, then a change through the index that may be refused.
  unfoldable pub update_first : (A → Bool) → (A → Result A) → List A → Result (List A)
  update_first p f xs = elim (find_first p xs) [
    | none ↦ err not_found
    | some x ↦ (f x >>= λ y. ok (modify_first p (λ _. y) xs))
  ]

  -- A lookup that answers ErrNotFound.
  abbrev pub or_not_found : Option A → Result A
  or_not_found none = err not_found
  or_not_found (some x) = ok x

  -- No two elements are the same one, by a test that tells records of one key.
  abbrev pub Distinct : (A → A → Bool) → List A → Type 0
  Distinct same [] = Unit
  Distinct same (x ∷ xs) = (find_first (λ y. same y x) xs ≡ none) × Distinct same xs

  -- An append that goes through appended a new key.
  pub append_new-ok :
      (no_key : Bool) (clash : A → Bool) (dup : Error) (x : A) (xs : List A) {ys : List A}
      → append_new no_key clash dup x xs ≡ ok ys
      → (no_key ≡ false) × (find_first clash xs ≡ none) × (ys ≡ snoc xs x)
  unfolding append_new
  append_new-ok no_key clash dup x xs h = ground arith

  pub update_first-ok :
      (p : A → Bool) (f : A → Result A) (xs : List A) {ys : List A}
      → update_first p f xs ≡ ok ys
      → (x : A) × (y : A) × (find_first p xs ≡ some x)
        × (f x ≡ ok y)
        × (ys ≡ modify_first p (λ _. y) xs)
  unfolding update_first
  update_first-ok p f xs h = ground arith

  not-same :
      (same : A → A → Bool) (xs : List A) (x z : A)
      → find_first (λ y. same y z) xs ≡ none
      → same x z ≡ false
      → find_first (λ y. same y z) (snoc xs x) ≡ none
  not-same same xs x z h k = rw (find_first-snoc (λ y. same y z) xs x, h, k)

  pub Distinct-snoc :
      (same : A → A → Bool) (xs : List A) (x : A)
      → ((a b : A) → same a b ≡ same b a)
      → Distinct same xs
      → find_first (λ y. same y x) xs ≡ none
      → Distinct same (snoc xs x)
  unfolding find_first
  Distinct-snoc same [] x s d h = (refl, tt)
  Distinct-snoc same (y ∷ ys) x s (d, e) h =
      (not-same same ys x y d (ground (arith, s x y)), Distinct-snoc same ys x s e (ground arith))

  find_first-modify_ext :
      (p q : A → Bool) (y : A) (xs : List A) (x : A)
      → find_first p xs ≡ some x
      → q y ≡ q x
      → find_first q xs ≡ none
      → find_first q (modify_first p (λ _. y) xs) ≡ none
  unfolding find_first modify_first
  find_first-modify_ext p q y [] x h k n = refl
  find_first-modify_ext p q y (z ∷ zs) x h k n = ground (arith, find_first-modify_ext p q y zs x)

  -- A change that keeps the key keeps the keys distinct.
  pub Distinct-modify_first :
      (same : A → A → Bool) (p : A → Bool) (y : A) (xs : List A) (x : A)
      → find_first p xs ≡ some x
      → ((a : A) → same y a ≡ same x a)
      → ((a : A) → same a y ≡ same a x)
      → Distinct same xs
      → Distinct same (modify_first p (λ _. y) xs)
  unfolding find_first modify_first
  Distinct-modify_first same p y [] x h l r d = tt
  Distinct-modify_first same p y (z ∷ zs) x h l r (d, e) = elim (Bool-cases (p z)) [
    | inl k ↦
        let z_is : z ≡ x = ground arith in
        rw k (rw (fun_ext (λ a. r a ∙ ap (same a) (sym z_is))) d, e)
    | inr k ↦ rw k (
      find_first-modify_ext p (λ a. same a z) y zs x (ground arith) (l z) d,
      Distinct-modify_first same p y zs x (ground arith) l r e,
    )
  ]

  -- The ways in which an update can end.
  pub data UpdateOutcome (p : A → Bool) (f : A → Result A) (xs : List A) (r : Result (List A))
      : Type 0 where
    missing : find_first p xs ≡ none → r ≡ err not_found → UpdateOutcome p f xs r
    declined :
        (x : A) (e : Error)
        → find_first p xs ≡ some x
        → f x ≡ err e
        → r ≡ err e
        → UpdateOutcome p f xs r
    changed :
        (x y : A)
        → find_first p xs ≡ some x
        → f x ≡ ok y
        → r ≡ ok (modify_first p (λ _. y) xs)
        → UpdateOutcome p f xs r

  pub update_first-cases :
      (p : A → Bool) (f : A → Result A) (xs : List A) → UpdateOutcome p f xs (update_first p f xs)
  unfolding update_first
  update_first-cases p f xs = go (find_first p xs) refl
    where
      at :
          (x : A)
          → find_first p xs ≡ some x
          → (r : Result A) → f x ≡ r
          → UpdateOutcome p f xs (update_first p f xs)
      at x h (err e) k = declined x e h k (rw (h, update_first, k))
      at x h (ok y) k = changed x y h k (rw (h, update_first, k))

      go : (o : Option A) → find_first p xs ≡ o → UpdateOutcome p f xs (update_first p f xs)
      go none h = missing h (rw (h, update_first))
      go (some x) h = at x h (f x) refl

-- The list after an update, which a refusal leaves alone.
abbrev pub kept {ℓ} : {A : Type ℓ} → List A → Result (List A) → List A
kept xs (ok ys) = ys
kept xs (err e) = xs

abbrev pub at_key {ℓ} : {A : Type ℓ} → (A → String) → String → A → Bool
at_key key k x = key x == k

-- An update of the record with one key, seen from the record with any key: nothing, or the update
-- of that very record.
pub lookup-update :
    {A : Type 0} (key : A → String) (k j : String) (g : A → Result A) (xs : List A) (e : A)
    → ((x y : A) → g x ≡ ok y → key y ≡ key x)
    → find_first (at_key key j) xs ≡ some e
    → (find_first (at_key key j) (kept xs (update_first (at_key key k) g xs)) ≡ some e)
      ⊎ ((e' : A) × (k ≡ j)
          × (g e ≡ ok e')
          × (find_first (at_key key j) (kept xs (update_first (at_key key k) g xs)) ≡ some e'))
lookup-update {A} key k j g xs e keeps h = go (update_first-cases (at_key key k) g xs)
  where
    R : Type 0
    R =
        (find_first (at_key key j) (kept xs (update_first (at_key key k) g xs)) ≡ some e)
        ⊎ ((e' : A) × (k ≡ j)
            × (g e ≡ ok e')
            × (find_first (at_key key j) (kept xs (update_first (at_key key k) g xs)) ≡ some e'))

    go : UpdateOutcome (at_key key k) g xs (update_first (at_key key k) g xs) → R
    go (missing n q) = inl (rw q h)
    go (declined x z n c q) = inl (rw q h)
    go (changed x y n c q) = elim (Bool-cases (k == j)) [
      | inl same ↦
          let here : k ≡ j = (eq_iff k j).0 same in
          let seen : find_first (at_key key j) xs ≡ some x = rw here at n in
          let x_is : x ≡ e = cc in
          inr (
            y,
            here,
            rw x_is at c,
            rw q (
                rw (← here) (
                  find_first-modify_self (at_key key k) y xs x n (
                    (eq_iff (key y) k).1 (
                      keeps x y c
                      ∙ (eq_iff (key x) k).0 (find_first-true (at_key key k) xs x n))))),
          )
      | inr other ↦
          let x_key : key x ≡ k = (eq_iff (key x) k).0 (find_first-true (at_key key k) xs x n) in
          inl (
            rw q (
              find_first-modify_other (at_key key k) (at_key key j) y xs x n (rw x_key other)
                (rw (keeps x y c, x_key) other)
              ∙ h))
    ]
