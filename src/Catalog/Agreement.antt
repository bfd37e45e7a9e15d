-- ===== src/Catalog/Agreement.antt =====
-- pkg/catalog/toolfunction.go: pairs of canonical trees that differ in the value of one key, and
-- what a change of w2-set-v1 makes of them.
use mathlib.Core.List.{Permᴰ}
use mathlib.Core.Path.{subst}
use node_vault.Base.{
  ◌≡◌, refl, ap, fun_ext, String, false, Option, none, some, List, [], ◌∷◌, ◌++◌, ◌==◌,
  if◌then◌else◌, inl, inr, Bool-cases, eq_iff, eq_refl,
}
use node_vault.Status.{Code, Outcome, ok, fail, ◌>>=◌, answer}
use node_vault.Catalog.Json.{Json, Fields, array, to_items, of_items, put, has_key}
use node_vault.Catalog.SetLike.{Change, change_key, change_all, write_back}

-- Two calls both fail, or both answer, with related answers.
pub data Both {A : Type 0} (R : A → A → Type 0) : Outcome A → Outcome A → Type 0 where
  fails : {c d : Code} → Both R (fail c) (fail d)
  oks : {a b : A} → R a b → Both R (ok a) (ok b)

pub Both-answer : {A : Type 0} {o p : Outcome A} → Both ◌≡◌ o p → answer o ≡ answer p
Both-answer fails = refl
Both-answer (oks e) = ap some e

pub Both-bind :
    {A B : Type 0} {R : A → A → Type 0} {S : B → B → Type 0} {o p : Outcome A} {f g : A → Outcome B}
    → Both R o p
    → ((a b : A) → R a b → Both S (f a) (g b))
    → Both S (o >>= f) (p >>= g)
Both-bind fails h = fails
Both-bind (oks r) h = h _ _ r

pub Both-refl : {A : Type 0} {R : A → A → Type 0} (o : Outcome A) → ((a : A) → R a a) → Both R o o
Both-refl (ok a) h = oks (h a)
Both-refl (fail c) h = fails

pub Both-trans :
    {A : Type 0} {R : A → A → Type 0} {o p q : Outcome A}
    → ((a b c : A) → R a b → R b c → R a c)
    → Both R o p
    → Both R p q
    → Both R o q
Both-trans t fails fails = fails
Both-trans t (oks r) (oks s) = oks (t _ _ _ r s)

pub of_to_items : (xs : List Json) → of_items (to_items xs) ≡ xs
unfolding to_items of_items
of_to_items [] = refl
of_to_items (x ∷ xs) = ap (λ ys. x ∷ ys) (of_to_items xs)

-- The same value, or arrays of the same elements.
pub data SameSet : Json → Json → Type 0 where
  equal : {v w : Json} → v ≡ w → SameSet v w
  shuffled : {xs ys : List Json} → Permᴰ xs ys → SameSet (array (to_items xs)) (array (to_items ys))

-- What a change makes of two values: it leaves both, or gives both a new one.
pub data Changes (P : Json → Json → Type 0) (v w : Json) : Option Json → Option Json → Type 0 where
  kept : P v w → Changes P v w none none
  changed : {v' w' : Json} → P v' w' → Changes P v w (some v') (some w')

-- A change that takes values related by `P` to values related by `Q`.
abbrev pub Takes : (Json → Json → Type 0) → (Json → Json → Type 0) → Change → Type 0
Takes P Q f = (v w : Json) → P v w → Both (Changes Q v w) (f v) (f w)

-- Maps with the same keys and values, but at `k`.
pub record Apart (k : String) (P : Json → Json → Type 0) (m n : Fields) : Type 0 where
  pub same_keys : m.keys ≡ n.keys
  pub elsewhere : (j : String) → (k == j) ≡ false → m.at j ≡ n.at j
  pub here : P (m.at k) (n.at k)

pub Apart-put :
    (P : Json → Json → Type 0) (k j : String) (v : Json) (m n : Fields)
    → (j == k) ≡ false
    → Apart k P m n
    → Apart k P (put j v m) (put j v n)
Apart-put P k j v m n h a = record {
  same_keys = λ i. if has_key j (a.same_keys i) then a.same_keys i else (a.same_keys i ++ j ∷ []);
  elsewhere = λ l g. ap (λ x. if j == l then v else x) (a.elsewhere l g);
  here = rw h a.here;
}

pub Apart-write :
    (P : Json → Json → Type 0) (k : String) (v w : Json) (m n : Fields)
    → m.keys ≡ n.keys
    → ((j : String) → (k == j) ≡ false → m.at j ≡ n.at j)
    → P v w
    → Apart k P (put k v m) (put k w n)
Apart-write P k v w m n e a p = record {
  same_keys = λ i. if has_key k (e i) then e i else (e i ++ k ∷ []);
  elsewhere = λ l g. rw g (a l g);
  here = rw (eq_refl k) p;
}

pub Apart-path : (k : String) (m n : Fields) → Apart k ◌≡◌ m n → m ≡ n
Apart-path k m n a = λ i. record { keys = a.same_keys i; at = fun_ext at_same i }
  where
    at_same : (j : String) → m.at j ≡ n.at j
    at_same j = elim (Bool-cases (k == j)) [
      | inl e ↦ subst (λ l. m.at l ≡ n.at l) ((eq_iff k j).0 e) a.here
      | inr e ↦ a.elsewhere j e
    ]

write_back-off :
    (P : Json → Json → Type 0) (k j : String) (m n : Fields)
    → (j == k) ≡ false
    → Apart k P m n
    → (o : Outcome (Option Json)) → Both (Apart k P) (o >>= write_back j m) (o >>= write_back j n)
write_back-off P k j m n g a (fail c) = Both.fails
write_back-off P k j m n g a (ok none) = Both.oks a
write_back-off P k j m n g a (ok (some v)) = Both.oks (Apart-put P k j v m n g a)

-- A change of another key keeps the pair, and a change of the key takes its values.
pub change_key-off :
    (P : Json → Json → Type 0) (k j : String) (f : Change) (m n : Fields)
    → (k == j) ≡ false
    → (j == k) ≡ false
    → Apart k P m n
    → Both (Apart k P) (change_key j f m) (change_key j f n)
unfolding change_key
change_key-off P k j f m n h g a =
    subst (λ w. Both (Apart k P) (f (m.at j) >>= write_back j m) (f w >>= write_back j n))
      (a.elsewhere j h) (write_back-off P k j m n g a (f (m.at j)))

write_back-here :
    (P Q : Json → Json → Type 0) (k : String) (m n : Fields)
    → Apart k P m n
    → (o p : Outcome (Option Json)) → Both (Changes Q (m.at k) (n.at k)) o p
    → Both (Apart k Q) (o >>= write_back k m) (p >>= write_back k n)
write_back-here P Q k m n a _ _ Both.fails = Both.fails
write_back-here P Q k m n a _ _ (Both.oks (Changes.kept q)) =
    Both.oks (record { same_keys = a.same_keys; elsewhere = a.elsewhere; here = q })
write_back-here P Q k m n a _ _ (Both.oks (Changes.changed q)) =
    Both.oks (Apart-write Q k _ _ m n a.same_keys a.elsewhere q)

change_key-here :
    (P Q : Json → Json → Type 0) (k : String) (f : Change) (m n : Fields)
    → Takes P Q f
    → Apart k P m n
    → Both (Apart k Q) (change_key k f m) (change_key k f n)
unfolding change_key
change_key-here P Q k f m n t a =
    write_back-here P Q k m n a (f (m.at k)) (f (n.at k)) (t (m.at k) (n.at k) a.here)

pub change_key-settles :
    (P : Json → Json → Type 0) (k : String) (f : Change) (m n : Fields)
    → Takes P ◌≡◌ f
    → Apart k P m n
    → Both ◌≡◌ (change_key k f m) (change_key k f n)
change_key-settles P k f m n t a = same (change_key-here P ◌≡◌ k f m n t a)
  where
    same : {o p : Outcome Fields} → Both (Apart k ◌≡◌) o p → Both ◌≡◌ o p
    same Both.fails = Both.fails
    same (Both.oks b) = Both.oks (Apart-path k _ _ b)

-- The changes give the same map on every pair of maps that differ at `k` as `P` allows.
abbrev pub Settles : String → (Json → Json → Type 0) → List (String × Change) → Type 0
Settles k P cs = (m n : Fields) → Apart k P m n → Both ◌≡◌ (change_all cs m) (change_all cs n)

pub Settles-later :
    (P : Json → Json → Type 0) (k j : String) (f : Change) (cs : List (String × Change))
    → (k == j) ≡ false
    → (j == k) ≡ false
    → Settles k P cs
    → Settles k P ((j, f) ∷ cs)
unfolding change_all
Settles-later P k j f cs h g s m n a = Both-bind (change_key-off P k j f m n h g a) s

pub Settles-refined :
    (P Q : Json → Json → Type 0) (k : String) (f : Change) (cs : List (String × Change))
    → Takes P Q f
    → Settles k Q cs
    → Settles k P ((k, f) ∷ cs)
unfolding change_all
Settles-refined P Q k f cs t s m n a = Both-bind (change_key-here P Q k f m n t a) s

pub Settles-now :
    (P : Json → Json → Type 0) (k : String) (f : Change) (cs : List (String × Change))
    → Takes P ◌≡◌ f
    → Settles k P ((k, f) ∷ cs)
Settles-now P k f cs t = Settles-refined P ◌≡◌ k f cs t (λ m n a.
    subst (λ x. Both ◌≡◌ (change_all cs m) (change_all cs x)) (Apart-path k m n a)
      (Both-refl (change_all cs m) (λ r. refl)))
