-- ===== src/Catalog/Shuffled.antt =====
-- pkg/catalog/toolfunction.go: what each change of w2-set-v1 makes of values that differ in the
-- order of a set-like field.
use mathlib.Core.List.{Permᴰ}
use mathlib.Core.Path.{subst}
use node_vault.Base.{◌≡◌, refl, sym, ap, ◌∙◌, Option, none, some, List, [], ◌∷◌, ◌++◌, arith}
use node_vault.Status.{Outcome, ok, fail, ◌>>=◌, invalid_argument}
use node_vault.Catalog.Json.{Json, Fields, array, to_items, as_json}
use node_vault.Catalog.SetLike.{
  Marshal, Keyed, Change, encode, encode_all, sort_canonical_set, sorted_array, in_object,
  in_elements, sort_each, unless_changed, sort_keyed, distinct, values,
}
use node_vault.Catalog.Distinct.{accepted, sort_keyed_lem, sort_new-Perm}
use node_vault.Catalog.Agreement.{
  Both, SameSet, Changes, Takes, Both-bind, Both-refl, Both-trans, of_to_items,
}

pub encode_all-Perm :
    (marshal : Marshal) {xs ys : List Json}
    → Permᴰ xs ys
    → Both Permᴰ (encode_all marshal xs) (encode_all marshal ys)
unfolding encode_all
encode_all-Perm marshal Permᴰ.nil = Both.oks Permᴰ.nil
encode_all-Perm marshal (Permᴰ.cons {a = a} {b = b} {l₁ = l₁} {l₂ = l₂} e d) =
    subst (λ c. Both Permᴰ (encode_all marshal (a ∷ l₁)) (encode_all marshal (c ∷ l₂))) e
      (Both-bind {R = ◌≡◌} (Both-refl (encode marshal a) (λ k. refl))
        (λ k k' q. Both-bind (encode_all-Perm marshal d) (λ es fs p. Both.oks (Permᴰ.cons q p))))
encode_all-Perm marshal (Permᴰ.swap {a = a} {b = b} {b' = b'} {l = l} p q) =
    subst (λ c. Both Permᴰ (encode_all marshal (a ∷ b ∷ l)) (encode_all marshal (c ∷ b' ∷ l))) q
      (subst (λ c. Both Permᴰ (encode_all marshal (a ∷ b ∷ l)) (encode_all marshal (b ∷ c ∷ l))) p
        (swapped (encode marshal a) (encode marshal b) (encode_all marshal l)))
  where
    swapped :
        (o p : Outcome Keyed) (r : Outcome (List Keyed))
        → Both Permᴰ
            (o >>= λ k. (p >>= λ h. r >>= λ es. ok (h ∷ es)) >>= λ es. ok (k ∷ es))
            (p >>= λ k. (o >>= λ h. r >>= λ es. ok (h ∷ es)) >>= λ es. ok (k ∷ es))
    swapped (fail c) (fail d) r = Both.fails
    swapped (fail c) (ok h) r = Both.fails
    swapped (ok k) (fail d) r = Both.fails
    swapped (ok k) (ok h) (fail c) = Both.fails
    swapped (ok k) (ok h) (ok es) = Both.oks (Permᴰ.swap refl refl)
encode_all-Perm marshal (Permᴰ.trans d e) =
    Both-trans (λ a b c p q. Permᴰ.trans p q) (encode_all-Perm marshal d)
      (encode_all-Perm marshal e)

-- The answer of the loop that compares the neighbours.
abbrev listed : Option (List Keyed) → Outcome (List Json)
listed none = fail invalid_argument
listed (some es) = ok (values es)

distinct_lem : (es : List Keyed) → distinct es ≡ listed (accepted es)
distinct_lem es = ground arith

distinct-Perm :
    {es fs : List Keyed} → Permᴰ es fs → distinct (sort_keyed es) ≡ distinct (sort_keyed fs)
distinct-Perm {es} {fs} d =
    distinct_lem (sort_keyed es)
    ∙ ap listed (sort_keyed_lem es ∙ sort_new-Perm d ∙ sym (sort_keyed_lem fs))
    ∙ sym (distinct_lem (sort_keyed fs))

pub sort_canonical_set-Perm :
    (marshal : Marshal) {xs ys : List Json}
    → Permᴰ xs ys
    → Both ◌≡◌ (sort_canonical_set marshal xs) (sort_canonical_set marshal ys)
unfolding sort_canonical_set
sort_canonical_set-Perm marshal d = Both-bind (encode_all-Perm marshal d) (λ es fs p.
    subst (Both ◌≡◌ (distinct (sort_keyed es))) (distinct-Perm p)
      (Both-refl (distinct (sort_keyed es)) (λ r. refl)))

-- A change takes a value to the same value.
Takes-path : (f : Change) (v : Json) → Both (Changes ◌≡◌ v v) (f v) (f v)
Takes-path f v = Both-refl (f v) (λ o. go o)
  where
    go : (o : Option Json) → Changes ◌≡◌ v v o o
    go none = Changes.kept refl
    go (some w) = Changes.changed refl

pub sorted_array-Takes : (marshal : Marshal) → Takes SameSet ◌≡◌ (sorted_array marshal)
sorted_array-Takes marshal v w (SameSet.equal e) =
    subst (λ x. Both (Changes ◌≡◌ v x) (sorted_array marshal v) (sorted_array marshal x)) e
      (Takes-path (sorted_array marshal) v)
sorted_array-Takes marshal _ _ (SameSet.shuffled {xs = xs} {ys = ys} d) =
    rw (of_to_items xs, of_to_items ys)
      (Both-bind (sort_canonical_set-Perm marshal d)
        (λ zs ws e. Both.oks (Changes.changed (ap (λ l. array (to_items l)) e))))

-- Nested maps that a relation of maps holds between.
pub data Nested (R : Fields → Fields → Type 0) : Json → Json → Type 0 where
  nested : (m n : Fields) → R m n → Nested R (as_json m) (as_json n)

pub in_object-Takes :
    (R : Fields → Fields → Type 0) (f : Fields → Outcome Fields)
    → ((m n : Fields) → R m n → Both ◌≡◌ (f m) (f n))
    → Takes (Nested R) ◌≡◌ (in_object f)
in_object-Takes R f h _ _ (Nested.nested m n r) =
    Both-bind (h m n r) (λ a b e. Both.oks (Changes.changed (ap as_json e)))

sort_each-Perm :
    (f : Change) {xs ys : List Json} → Permᴰ xs ys → Both Permᴰ (sort_each f xs) (sort_each f ys)
unfolding sort_each
sort_each-Perm f Permᴰ.nil = Both.oks Permᴰ.nil
sort_each-Perm f (Permᴰ.cons {a = a} {b = b} {l₁ = l₁} {l₂ = l₂} e d) =
    subst (λ c. Both Permᴰ (sort_each f (a ∷ l₁)) (sort_each f (c ∷ l₂))) e
      (Both-bind {R = ◌≡◌} (Both-refl (f a) (λ k. refl)) (λ k k' q.
        Both-bind (sort_each-Perm f d)
          (λ es fs p. Both.oks (Permᴰ.cons (ap (unless_changed a) q) p))))
sort_each-Perm f (Permᴰ.swap {a = a} {b = b} {b' = b'} {l = l} p q) =
    subst (λ c. Both Permᴰ (sort_each f (a ∷ b ∷ l)) (sort_each f (c ∷ b' ∷ l))) q
      (subst (λ c. Both Permᴰ (sort_each f (a ∷ b ∷ l)) (sort_each f (b ∷ c ∷ l))) p
        (swapped (f a) (f b) (sort_each f l)))
  where
    swapped :
        (o p : Outcome (Option Json)) (r : Outcome (List Json))
        → Both Permᴰ
            (o >>= λ k. (p >>= λ h. r >>= λ es. ok (unless_changed b h ∷ es)) >>= λ es.
              ok (unless_changed a k ∷ es))
            (p >>= λ k. (o >>= λ h. r >>= λ es. ok (unless_changed a h ∷ es)) >>= λ es.
              ok (unless_changed b k ∷ es))
    swapped (fail c) (fail d) r = Both.fails
    swapped (fail c) (ok h) r = Both.fails
    swapped (ok k) (fail d) r = Both.fails
    swapped (ok k) (ok h) (fail c) = Both.fails
    swapped (ok k) (ok h) (ok es) = Both.oks (Permᴰ.swap refl refl)
sort_each-Perm f (Permᴰ.trans d e) =
    Both-trans (λ a b c p q. Permᴰ.trans p q) (sort_each-Perm f d) (sort_each-Perm f e)

-- The loop over the ports keeps the set.
pub in_elements-shuffled : (f : Change) → Takes SameSet SameSet (in_elements f)
in_elements-shuffled f v w (SameSet.equal e) =
    subst (λ x. Both (Changes SameSet v x) (in_elements f v) (in_elements f x)) e
      (Both-refl (in_elements f v) go)
  where
    go : (o : Option Json) → Changes SameSet v v o o
    go none = Changes.kept (SameSet.equal refl)
    go (some x) = Changes.changed (SameSet.equal refl)
in_elements-shuffled f _ _ (SameSet.shuffled {xs = xs} {ys = ys} d) =
    rw (of_to_items xs, of_to_items ys)
      (Both-bind (sort_each-Perm f d) (λ zs ws p. Both.oks (Changes.changed (SameSet.shuffled p))))

-- Arrays that differ in one element, as `P` allows.
pub data OneElement (P : Json → Json → Type 0) : Json → Json → Type 0 where
  one :
      (before after : List Json) {v w : Json}
      → P v w
      → OneElement P
          (array (to_items (before ++ v ∷ after)))
          (array (to_items (before ++ w ∷ after)))

same_value :
    {v w : Json} (a b : Option Json) → Changes ◌≡◌ v w a b → unless_changed v a ≡ unless_changed w b
same_value _ _ (Changes.kept e) = e
same_value _ _ (Changes.changed e) = e

sort_each-one :
    (P : Json → Json → Type 0) (f : Change) (before after : List Json) (v w : Json)
    → Takes P ◌≡◌ f
    → P v w
    → Both ◌≡◌ (sort_each f (before ++ v ∷ after)) (sort_each f (before ++ w ∷ after))
unfolding sort_each
sort_each-one P f [] after v w t p = Both-bind (t v w p) (λ a b c.
    Both-bind {R = ◌≡◌} (Both-refl (sort_each f after) (λ r. refl))
      (λ es fs e. Both.oks (λ i. same_value a b c i ∷ e i)))
sort_each-one P f (x ∷ before) after v w t p =
    Both-bind {R = ◌≡◌} (Both-refl (f x) (λ r. refl)) (λ a b c.
      Both-bind (sort_each-one P f before after v w t p)
        (λ es fs e. Both.oks (λ i. unless_changed x (c i) ∷ e i)))

pub in_elements-one :
    (P : Json → Json → Type 0) (f : Change)
    → Takes P ◌≡◌ f
    → Takes (OneElement P) ◌≡◌ (in_elements f)
in_elements-one P f t _ _ (OneElement.one before after {v} {w} p) =
    rw (of_to_items (before ++ v ∷ after), of_to_items (before ++ w ∷ after))
      (Both-bind (sort_each-one P f before after v w t p)
        (λ zs ws e. Both.oks (Changes.changed (ap (λ l. array (to_items l)) e))))
